-- ===== src/Response/Headers/Reading.antt =====
-- How a client reads what the server sends (src/WebServer.cc: `getHttpHeader`): lines up to an empty
-- one, then the body.
use libnavajo.Base.{
  ℕ, zero, suc, ◌<◌, ◌≡◌, refl, sym, ap, ◌∙◌, Bool, true, false, not, ◌&&◌, List, [], ◌∷◌, ◌++◌,
  Option, none, some, ◌==◌, if◌then◌else◌, Bytes, length, length-append, append_assoc, arith, All,
}
use libnavajo.Response.Headers.{crlf, lines_text}

-- A line up to its end, and what is behind it.
unfoldable pub split_line : Bytes → Bytes × Bytes
split_line [] = ([], [])
split_line (a ∷ []) = (a ∷ [], [])
split_line (a ∷ b ∷ s) =
    let (l, rest) = split_line (b ∷ s) in
    if (a == b'\r') && (b == b'\n') then ([], s) else (a ∷ l, rest)

abbrev pub before_lines : Bytes → Option (List Bytes × Bytes) → Option (List Bytes × Bytes)
before_lines l none = none
before_lines l (some (ls, body)) = some (l ∷ ls, body)

-- The lines up to the empty one and the body, on fuel for the lines.
unfoldable pub client_reads : ℕ → Bytes → Option (List Bytes × Bytes)
unfolding split_line
client_reads zero s = none
client_reads (suc fuel) s =
    let (l, rest) = split_line s in
    let more = client_reads fuel rest in
    if length l == 0 then some ([], rest) else before_lines l more

-- No line ends in the text.
unfoldable pub no_cr : Bytes → Bool
no_cr [] = true
no_cr (c ∷ s) = not (c == b'\r') && no_cr s

abbrev pub IsLine : Bytes → Type 0
IsLine l = (0 < length l) × (no_cr l ≡ true)

split_line-line : (l rest : Bytes) → no_cr l ≡ true → split_line (l ++ (crlf ++ rest)) ≡ (l, rest)
unfolding split_line no_cr
split_line-line [] rest h = refl
split_line-line (a ∷ []) rest h = ground (arith, h)
split_line-line (a ∷ b ∷ l) rest h = ground (arith, split_line-line (b ∷ l) rest)

client_reads-line :
    (fuel : ℕ) (l rest : Bytes)
    → IsLine l
    → client_reads (suc fuel) (l ++ (crlf ++ rest)) ≡ before_lines l (client_reads fuel rest)
unfolding client_reads
client_reads-line fuel l rest h =
    let some' : (length l == 0) ≡ false = ground (arith, h.0) in
    rw (split_line-line l rest h.1, some') refl

no_lines : (body : Bytes) → client_reads 1 (crlf ++ body) ≡ some ([], body)
unfolding client_reads split_line
no_lines body = refl

shape :
    (l : Bytes) (ls : List Bytes) (body : Bytes)
    → lines_text (l ∷ ls) ++ (crlf ++ body) ≡ l ++ (crlf ++ (lines_text ls ++ (crlf ++ body)))
shape l ls body = append_assoc l (crlf ++ lines_text ls) (crlf ++ body)

-- Lines with an empty one behind them are read back, and the body is what follows.
pub client_reads-lines_text :
    (ls : List Bytes) (body : Bytes)
    → All IsLine ls
    → client_reads (suc (length ls)) (lines_text ls ++ (crlf ++ body)) ≡ some (ls, body)
client_reads-lines_text [] body h = no_lines body
client_reads-lines_text (l ∷ ls) body h =
    ap (λ s. client_reads (suc (length (l ∷ ls))) s) (shape l ls body)
    ∙ client_reads-line (suc (length ls)) l (lines_text ls ++ (crlf ++ body)) h.0
    ∙ ap (before_lines l) (client_reads-lines_text ls body h.1)

pub lines_text-append :
    (ls ms : List Bytes) → lines_text (ls ++ ms) ≡ lines_text ls ++ lines_text ms
lines_text-append [] ms = refl
lines_text-append (l ∷ ls) ms =
    ap (λ s. l ++ (crlf ++ s)) (lines_text-append ls ms) ∙ sym (append_assoc l _ (lines_text ms))

pub All-append : (ls ms : List Bytes) → All IsLine ls → All IsLine ms → All IsLine (ls ++ ms)
All-append [] ms h k = k
All-append (l ∷ ls) ms h k = (h.0, All-append ls ms h.1 k)

pub no_cr-append : (s t : Bytes) → no_cr s ≡ true → no_cr t ≡ true → no_cr (s ++ t) ≡ true
unfolding no_cr
no_cr-append [] t h k = k
no_cr-append (c ∷ s) t h k = ground (arith, no_cr-append s t)

-- A text that is put behind a fixed one is a line.
pub behind-IsLine : (s t : Bytes) → IsLine s → no_cr t ≡ true → IsLine (s ++ t)
behind-IsLine s t h k = (omega (arith, h.0, length-append s t), no_cr-append s t h.1 k)
