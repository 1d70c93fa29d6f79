-- ===== src/Transcription/Faults.antt =====
-- transcription/exceptions.py and util.py: how the functions of the package fail. A `TextifyError`
-- is its public code; the other exceptions stand by themselves.
use textify.Prelude.{Bool, true, false, ◌≡◌, refl, subst, if◌then◌else◌, ◌⊎◌, inl, inr}
use textify.Errors.{PublicErrorCode}

-- `ValueError` and `TypeError` are caught where the source catches it, and escapes elsewhere.
pub data Fault : Type 0 where
  domain : PublicErrorCode → Fault
  value_error type_error : Fault

pub data Checked {ℓ} (A : Type ℓ) : Type ℓ where
  value : A → Checked A
  fault : Fault → Checked A

infixl 5 ◌>>=◌ ◌>>◌
abbrev pub ◌>>=◌ {ℓ κ} : {A : Type ℓ} {B : Type κ} → Checked A → (A → Checked B) → Checked B
value a >>= f = f a
fault e >>= f = fault e

abbrev pub ◌>>◌ {ℓ κ} : {A : Type ℓ} {B : Type κ} → Checked A → Checked B → Checked B
m >> k = m >>= λ _. k

-- `if not test: raise`
abbrev pub ensure : Bool → PublicErrorCode → Checked (Unit {0})
ensure true c = value tt
ensure false c = fault (domain c)

-- A statement about the value, if there is one.
unfoldable pub Holds {ℓ κ} : {A : Type ℓ} → (A → Type κ) → Checked A → Type κ
Holds P (value a) = P a
Holds P (fault e) = Unit

pub Holds-bind {ℓ κ μ} :
    {A : Type ℓ} {B : Type κ} (P : B → Type μ) (m : Checked A) (f : A → Checked B)
    → ((a : A) → m ≡ value a → Holds P (f a))
    → Holds P (m >>= f)
unfolding Holds
Holds-bind P (value a) f h = h a refl
Holds-bind P (fault e) f h = tt

pub Holds-ensure {ℓ κ} :
    {A : Type ℓ} (P : A → Type κ) (b : Bool) (c : PublicErrorCode) (k : Checked A)
    → (b ≡ true → Holds P k)
    → Holds P (ensure b c >> k)
unfolding Holds
Holds-ensure P true c k h = h refl
Holds-ensure P false c k h = tt

pub Holds-if {ℓ κ} :
    {A : Type ℓ} (P : A → Type κ) (b : Bool) (m n : Checked A)
    → (b ≡ true → Holds P m)
    → (b ≡ false → Holds P n)
    → Holds P (if b then m else n)
unfolding Holds
Holds-if P true m n h k = h refl
Holds-if P false m n h k = k refl

pub Holds-value {ℓ κ} :
    {A : Type ℓ} (P : A → Type κ) {m : Checked A} {a : A} → m ≡ value a → Holds P m → P a
unfolding Holds
Holds-value P e h = subst (Holds P) e h

pub Holds-pure {ℓ κ} : {A : Type ℓ} (P : A → Type κ) (a : A) → P a → Holds P (value a)
unfolding Holds
Holds-pure P a h = h

pub Holds-fault {ℓ κ} : {A : Type ℓ} (P : A → Type κ) (e : Fault) → Holds P (fault e)
unfolding Holds
Holds-fault P e = tt

pub Checked-cases {ℓ} :
    {A : Type ℓ} (m : Checked A) → ((a : A) × (m ≡ value a)) ⊎ ((e : Fault) × (m ≡ fault e))
Checked-cases (value a) = inl (a, refl)
Checked-cases (fault e) = inr (e, refl)

-- The value of a bind comes from a value of its first part.
pub >>=-value {ℓ κ} :
    {A : Type ℓ} {B : Type κ} (m : Checked A) (f : A → Checked B) (b : B)
    → (m >>= f) ≡ value b
    → (a : A) × (m ≡ value a) × (f a ≡ value b)
>>=-value (value a) f b h = (a, refl, h)
>>=-value (fault e) f b h = cc h
