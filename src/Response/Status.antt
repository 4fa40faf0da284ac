-- ===== src/Response/Status.antt =====
-- The return code of a response after the calls that set it (include/libnavajo/HttpResponse.hh).
use libnavajo.Base.{
  ℕ, ◌≡◌, refl, ap, ◌∙◌, true, false, not, List, [], ◌∷◌, ◌++◌, Option, none, some, ◌==◌,
  if◌then◌else◌, Bytes, codes, All, arith,
}
use libnavajo.Server.Text.Numbers.{size_text}
use libnavajo.Response.{
  HttpResponse, unset_code, set_code_and_message, set_http_return_code, set_content, with_code,
  get_http_return_code_str,
}
use libnavajo.Response.ReturnCodes.{message_of}

-- The calls that have to do with the code: `setContent`, and `setHttpReturnCode` without and with a
-- message.
pub data StatusCall : Type 0 where
  content : Option Bytes → ℕ → StatusCall
  code : ℕ → StatusCall
  code_and_message : ℕ → Bytes → StatusCall

abbrev pub status_call : StatusCall → HttpResponse → HttpResponse
status_call (content c n) r = set_content c n r
status_call (code value) r = set_http_return_code value r
status_call (code_and_message value message) r = set_code_and_message value message r

unfoldable pub status_calls : List StatusCall → HttpResponse → HttpResponse
status_calls [] r = r
status_calls (call ∷ calls) r = status_calls calls (status_call call r)

-- The code that a call asks for, with its message.
abbrev pub asked : StatusCall → Option (ℕ × Bytes)
asked (content c n) = none
asked (code value) = some (value, message_of value)
asked (code_and_message value message) = some (value, message)

abbrev pub or_later : Option (ℕ × Bytes) → Option (ℕ × Bytes) → Option (ℕ × Bytes)
or_later none later = later
or_later (some p) none = some p
or_later (some p) (some q) = some q

-- The last code that is asked for.
abbrev pub last_asked : List StatusCall → Option (ℕ × Bytes)
last_asked [] = none
last_asked (call ∷ calls) = or_later (asked call) (last_asked calls)

abbrev pub code_of_length : ℕ → ℕ
code_of_length n = if not (n == 0) then 200 else 204

-- The code for the first content that is set, and for a response without content.
abbrev pub by_content : List StatusCall → ℕ
by_content [] = 204
by_content (content c n ∷ calls) = code_of_length n
by_content (code value ∷ calls) = by_content calls
by_content (code_and_message value message ∷ calls) = by_content calls

abbrev pub status_of : Option (ℕ × Bytes) → ℕ → ℕ × Bytes
status_of none n = (n, message_of n)
status_of (some p) n = p

abbrev pub status_line : ℕ × Bytes → Bytes
status_line p = (size_text p.0 ++ codes " ") ++ p.1

-- No call asks for the code that stands for none.
abbrev pub AsksCode : StatusCall → Type 0
AsksCode (content c n) = Unit
AsksCode (code value) = (value == 0) ≡ false
AsksCode (code_and_message value message) = (value == 0) ≡ false

status_now : HttpResponse → ℕ × Bytes
status_now r = ((with_code r).http_return_code, (with_code r).http_return_code_message)

abbrev or_now : Option (ℕ × Bytes) → HttpResponse → ℕ × Bytes
or_now none r = (r.http_return_code, r.http_return_code_message)
or_now (some p) r = p

or_now-later :
    (p : ℕ × Bytes) (later : Option (ℕ × Bytes)) (r r' : HttpResponse)
    → or_now none r' ≡ p
    → or_now later r' ≡ or_now (or_later (some p) later) r
or_now-later p none r r' e = e
or_now-later p (some q) r r' e = refl

set_content-set :
    (c : Option Bytes) (n : ℕ) (r : HttpResponse)
    → (r.http_return_code == 0) ≡ false
    → or_now none (set_content c n r) ≡ or_now none r
unfolding set_content
set_content-set c n r set =
    ap
      (λ b. or_now none (
        if b
        then (if not (n == 0)
            then set_http_return_code 200
                (record r { response_content = c; response_content_length = n })
            else set_http_return_code 204
                (record r { response_content = c; response_content_length = n }))
        else record r { response_content = c; response_content_length = n }))
      set

-- Once there is a code, only a code that is asked for replaces it.
set-status_calls :
    (calls : List StatusCall) (r : HttpResponse)
    → All AsksCode calls
    → (r.http_return_code == 0) ≡ false
    → status_now (status_calls calls r) ≡ or_now (last_asked calls) r
unfolding status_calls status_now set_http_return_code
set-status_calls [] r h set =
    ap (λ b. or_now none (if b then set_http_return_code 204 r else r)) set
set-status_calls (content c n ∷ calls) r h set =
    let same = set_content-set c n r set in
    let still : ((set_content c n r).http_return_code == 0) ≡ false =
      ap (λ p. p.0 == 0) same ∙ set in
    set-status_calls calls (set_content c n r) h.1 still ∙ keeps (last_asked calls) same
  where
    keeps :
        (o : Option (ℕ × Bytes))
        → or_now none (set_content c n r) ≡ or_now none r
        → or_now o (set_content c n r) ≡ or_now o r
    keeps none e = e
    keeps (some p) e = refl
set-status_calls (code value ∷ calls) r h set =
    set-status_calls calls (set_http_return_code value r) h.1 h.0
    ∙ or_now-later (value, message_of value) (last_asked calls) r (set_http_return_code value r)
        refl
set-status_calls (code_and_message value message ∷ calls) r h set =
    set-status_calls calls (set_code_and_message value message r) h.1 h.0
    ∙ or_now-later (value, message) (last_asked calls) r (set_code_and_message value message r) refl

-- A response that has no code yet.
set_content-unset :
    (c : Option Bytes) (n : ℕ) (r : HttpResponse)
    → (r.http_return_code == 0) ≡ true
    → or_now none (set_content c n r) ≡ (code_of_length n, message_of (code_of_length n))
unfolding set_content set_http_return_code
set_content-unset c n r unset = ground (arith, unset)

nonzero_code : (n : ℕ) → (code_of_length n == 0) ≡ false
nonzero_code n = ground arith

or_now-status_of :
    (o : Option (ℕ × Bytes)) (r : HttpResponse) (n : ℕ)
    → or_now none r ≡ (n, message_of n)
    → or_now o r ≡ status_of o n
or_now-status_of none r n e = e
or_now-status_of (some p) r n e = refl

status_of-later :
    (p : ℕ × Bytes) (later : Option (ℕ × Bytes)) (r : HttpResponse) (n : ℕ)
    → or_now none r ≡ p
    → or_now later r ≡ status_of (or_later (some p) later) n
status_of-later p none r n e = e
status_of-later p (some q) r n e = refl

status_now-calls :
    (calls : List StatusCall) (r : HttpResponse)
    → All AsksCode calls
    → (r.http_return_code == 0) ≡ true
    → status_now (status_calls calls r) ≡ status_of (last_asked calls) (by_content calls)
unfolding status_calls status_now set_http_return_code
status_now-calls [] r h unset =
    ap (λ b. or_now none (if b then set_http_return_code 204 r else r)) unset
status_now-calls (content c n ∷ calls) r h unset =
    let now = set_content-unset c n r unset in
    let set : ((set_content c n r).http_return_code == 0) ≡ false =
      ap (λ p. p.0 == 0) now ∙ nonzero_code n in
    set-status_calls calls (set_content c n r) h.1 set
    ∙ or_now-status_of (last_asked calls) (set_content c n r) (code_of_length n) now
status_now-calls (code value ∷ calls) r h unset =
    set-status_calls calls (set_http_return_code value r) h.1 h.0
    ∙ status_of-later (value, message_of value) (last_asked calls) (set_http_return_code value r)
        (by_content calls) refl
status_now-calls (code_and_message value message ∷ calls) r h unset =
    set-status_calls calls (set_code_and_message value message r) h.1 h.0
    ∙ status_of-later (value, message) (last_asked calls) (set_code_and_message value message r)
        (by_content calls) refl

-- After any calls that set the content or ask for a code other than 0, the status of a response
-- without a code is the last code that was asked for, with its message, and where none was, the
-- code for the first content that was set: 200 where it had a length and 204 where it had none or
-- none was set.
pub get_http_return_code_str-status_of :
    (calls : List StatusCall) (r : HttpResponse)
    → All AsksCode calls
    → (r.http_return_code == unset_code) ≡ true
    → (get_http_return_code_str (status_calls calls r)).0
      ≡ status_line (status_of (last_asked calls) (by_content calls))
unfolding get_http_return_code_str status_now
get_http_return_code_str-status_of calls r h unset =
    ap status_line (status_now-calls calls r h unset)
