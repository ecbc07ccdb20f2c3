-- ===== src/Prelude/Effects.antt =====
-- What running a piece of C comes to. `assert` and `abort` stop the program, a loop that is given
-- too few rounds is `spin`, and any other run is `done` with its value.
use mathlib.Core.Path.{◌≡◌, refl, subst, ap, ◌∙◌}
use ski_rental_adaptive_qf.Prelude.Tests.{if◌then◌else◌}
use mathlib.Core.Bool.{Bool, true, false}
use mathlib.Core.Option.{Option, none, some}

pub data Outcome {ℓ} (A : Type ℓ) : Type ℓ where
  done : A → Outcome A
  abort : Outcome A
  spin : Outcome A

infixl 5 ◌>>=◌ ◌>>◌
abbrev pub ◌>>=◌ {ℓ κ} : {A : Type ℓ} {B : Type κ} → Outcome A → (A → Outcome B) → Outcome B
done a >>= f = f a
abort >>= f = abort
spin >>= f = spin

abbrev pub ◌>>◌ {ℓ} : {B : Type ℓ} → Outcome (Unit {0}) → Outcome B → Outcome B
m >> k = m >>= λ _. k

-- `assert(b)`
abbrev pub assert : Bool → Outcome (Unit {0})
assert true = done tt
assert false = abort

-- Inversion of a bind that is done.
pub >>=-eq-done {ℓ κ} :
    {A : Type ℓ} {B : Type κ} (m : Outcome A) (f : A → Outcome B) {b : B}
    → (m >>= f) ≡ done b
    → (a : A) × (m ≡ done a) × (f a ≡ done b)
>>=-eq-done (done a) f h = (a, refl, h)
>>=-eq-done abort f h = cc
>>=-eq-done spin f h = cc

-- What all results of a run satisfy: that is shown step by step.
pub all-bind {ℓ κ} :
    {A : Type ℓ} {B : Type κ} (P : B → Type 0) (m : Outcome A) (f : A → Outcome B)
    → ((a : A) → m ≡ done a → (b : B) → f a ≡ done b → P b)
    → (b : B) → (m >>= f) ≡ done b
    → P b
all-bind P (done a) f h b e = h a refl b e
all-bind P abort f h b e = cc
all-bind P spin f h b e = cc

pub all-done {ℓ} : {B : Type ℓ} (P : B → Type 0) (b : B) → P b → (c : B) → done b ≡ done c → P c
all-done P b p c e = subst P (ap (λ o. elim o [ done x ↦ x | abort ↦ b | spin ↦ b ]) e) p

pub all-if {ℓ} :
    {B : Type ℓ} (P : B → Type 0) (t : Bool) (m n : Outcome B)
    → (t ≡ true → (b : B) → m ≡ done b → P b)
    → (t ≡ false → (b : B) → n ≡ done b → P b)
    → (b : B) → (if t then m else n) ≡ done b
    → P b
all-if P true m n h k = h refl
all-if P false m n h k = k refl

-- The same for `elim`.
pub all-elim {ℓ} :
    {B : Type ℓ} (P : B → Type 0) (t : Bool) (m n : Outcome B)
    → (t ≡ true → (b : B) → m ≡ done b → P b)
    → (t ≡ false → (b : B) → n ≡ done b → P b)
    → (b : B) → (elim t [ true ↦ m | false ↦ n ]) ≡ done b
    → P b
all-elim P true m n h k = h refl
all-elim P false m n h k = k refl

pub all-assert-true {ℓ} :
    {B : Type ℓ} (P : B → Type 0) (t : Bool) (m : Outcome B)
    → (t ≡ true → (b : B) → m ≡ done b → P b)
    → (b : B) → (assert t >> m) ≡ done b
    → P b
all-assert-true P true m h = h refl
all-assert-true P false m h = λ b e. cc

pub all-option {ℓ κ} :
    {A : Type κ} {B : Type ℓ} (P : B → Type 0) (o : Option A) (m : Outcome B) (f : A → Outcome B)
    → ((b : B) → m ≡ done b → P b)
    → ((a : A) (b : B) → f a ≡ done b → P b)
    → (b : B) → (elim o [ none ↦ m | some a ↦ f a ]) ≡ done b
    → P b
all-option P none m f h k = h
all-option P (some a) m f h k = k a

pub all-assert {ℓ} :
    {B : Type ℓ} (P : B → Type 0) (t : Bool) (m : Outcome B)
    → ((b : B) → m ≡ done b → P b)
    → (b : B) → (assert t >> m) ≡ done b
    → P b
all-assert P true m h b e = h b e
all-assert P false m h b e = cc

-- Two runs are the same if their first parts are, and what follows is for each value that these give.
pub >>=-cong {ℓ κ} :
    {A : Type ℓ} {B : Type κ} (m : Outcome A) {m' : Outcome A} {f f' : A → Outcome B}
    → m ≡ m'
    → ((a : A) → m ≡ done a → f a ≡ f' a)
    → (m >>= f) ≡ (m' >>= f')
>>=-cong (done a) {f' = f'} p q = q a refl ∙ ap (λ n. n >>= f') p
>>=-cong abort {f' = f'} p q = ap (λ n. n >>= f') p
>>=-cong spin {f' = f'} p q = ap (λ n. n >>= f') p

-- A run, step by step: the value of its first part, an assert that holds, a test that does.
pub >>=-done {ℓ κ} :
    {A : Type ℓ} {B : Type κ} (m : Outcome A) (f : A → Outcome B) {a : A} {r : Outcome B}
    → m ≡ done a
    → f a ≡ r
    → (m >>= f) ≡ r
>>=-done m f p q = ap (λ n. n >>= f) p ∙ q

pub assert-true {ℓ} :
    {B : Type ℓ} (t : Bool) {k r : Outcome B} → t ≡ true → k ≡ r → (assert t >> k) ≡ r
assert-true t {k = k} p q = ap (λ b. assert b >> k) p ∙ q

pub if-true {ℓ} :
    {B : Type ℓ} (t : Bool) {k : B} (j : B) {r : B} → t ≡ true → k ≡ r → (if t then k else j) ≡ r
if-true t {k = k} j p q = ap (λ b. if b then k else j) p ∙ q

pub if-false {ℓ} :
    {B : Type ℓ} (t : Bool) (k : B) {j r : B} → t ≡ false → j ≡ r → (if t then k else j) ≡ r
if-false t k {j = j} p q = ap (λ b. if b then k else j) p ∙ q

-- A choice whose first way out is replaced by an equal one.
pub elim-cong {ℓ} :
    {A : Type ℓ} (b : Bool) {m m' : Outcome A} (n : Outcome A)
    → m ≡ m'
    → (elim b [ true ↦ m | false ↦ n ]) ≡ (elim b [ true ↦ m' | false ↦ n ])
elim-cong true n e = e
elim-cong false n e = refl
