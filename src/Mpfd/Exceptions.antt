-- ===== src/Mpfd/Exceptions.antt =====
-- `MPFD::Exception` with its messages, and methods that throw it (src/MPFDParser/Exception.cc).
use libnavajo.Base.{◌≡◌, Bytes}

-- One constructor for each message; the argument is the text that the message quotes.
pub data Exception : Type 0 where
  type_incorrect no_type_set not_text not_file : Exception
  in_filesystem in_memory : Exception
  no_temp_dir : Exception
  cannot_write : Bytes → Exception
  not_multipart no_boundary : Bytes → Exception
  no_content_type too_much_data : Exception
  not_form_data no_name name_not_closed filename_not_closed : Bytes → Exception

-- A method that changes no state.
pub data Result {ℓ} (A : Type ℓ) : Type ℓ where
  ok : A → Result A
  throw : Exception → Result A

-- What a method on state `S` does: it returns, or throws and leaves what it changed so far.
-- `null_pointer` is an access through a null pointer, `out_of_fuel` a loop that is given up.
pub data Run {ℓ κ} (S : Type ℓ) (A : Type κ) : Type (ℓ ⊔ κ) where
  returns : A → S → Run S A
  throws : Exception → S → Run S A
  null_pointer out_of_fuel : Run S A

infixl 5 ◌>>=◌ ◌>>◌
abbrev pub ◌>>=◌ {ℓ κ μ} :
    {S : Type ℓ} {A : Type κ} {B : Type μ} → (S → Run S A) → (A → S → Run S B) → S → Run S B
◌>>=◌ m f s = elim (m s) [
  | returns a s' ↦ f a s'
  | throws e s' ↦ throws e s'
  | null_pointer ↦ null_pointer
  | out_of_fuel ↦ out_of_fuel
]

abbrev pub ◌>>◌ {ℓ κ} :
    {S : Type ℓ} {B : Type κ} → (S → Run S (Unit {0})) → (S → Run S B) → S → Run S B
m >> k = m >>= λ _. k

-- A run that neither faults nor is given up: `Q` holds where it returns, and `R` where it throws.
module _ {S A : Type 0} (Q : A → S → Type 0) (R : S → Type 0) where
  abbrev pub Ends : Run S A → Type 0
  Ends (returns a s) = Q a s
  Ends (throws e s) = R s
  Ends null_pointer = ⊥
  Ends out_of_fuel = ⊥

-- The rule for one method after another.
module _ {S A B : Type 0} (Q : A → S → Type 0) (R : S → Type 0) (Q' : B → S → Type 0) where
  pub Ends-bind :
      (m : S → Run S A) (f : A → S → Run S B) (s : S)
      → Ends Q R (m s)
      → ((a : A) (t : S) → Q a t → Ends Q' R (f a t))
      → Ends Q' R ((m >>= f) s)
  Ends-bind m f s h k = after (m s) h
    where
      after :
          (r : Run S A)
          → Ends Q R r
          → Ends Q' R (elim r [
            | returns a t ↦ f a t
            | throws e t ↦ throws e t
            | null_pointer ↦ null_pointer
            | out_of_fuel ↦ out_of_fuel
          ])
      after (returns a t) q = k a t q
      after (throws e t) q = q
      after null_pointer q = absurd q
      after out_of_fuel q = absurd q

pub Ends-weaken :
    {S A : Type 0} (Q : A → S → Type 0) (R R' : S → Type 0)
    → ((s : S) → R s → R' s)
    → (r : Run S A) → Ends Q R r
    → Ends Q R' r
Ends-weaken Q R R' f (returns a s) h = h
Ends-weaken Q R R' f (throws e s) h = f s h
Ends-weaken Q R R' f null_pointer h = h
Ends-weaken Q R R' f out_of_fuel h = h

pub bind-returns {ℓ κ μ} :
    {S : Type ℓ} {A : Type κ} {B : Type μ} (m : S → Run S A) (f : A → S → Run S B) (s : S) {a : A}
    {t : S}
    → m s ≡ returns a t
    → (m >>= f) s ≡ f a t
bind-returns m f s e = rw (e, ◌>>=◌)
