-- ===== src/Events/Ansi.antt =====
-- `StripAnsi` on coloured text: the colours go, and the text between them stays.

use coretrace_runtime_analyz.Base.{
  All, Bytes, List, [], ap, arith, false, refl, true, ℕ, ◌++◌, ◌==◌, ◌∙◌, ◌∷◌, ◌≡◌,
}
use coretrace_runtime_analyz.Events.{escape, is_letter, strip_ansi, strip_loop}

-- A piece of coloured text: plain bytes, none of them an escape, or an escape sequence with its
-- parameter bytes, none of them a letter, and its final letter.
pub data Piece : Type 0 where
  plain : Bytes → Piece
  sequence : Bytes → ℕ → Piece

abbrev pub IsPiece : Piece → Type 0
IsPiece (plain text) = All (λ c. (c == escape) ≡ false) text
IsPiece (sequence parameters final) =
    All (λ c. is_letter c ≡ false) parameters × (is_letter final ≡ true)

abbrev pub written : List Piece → Bytes
written [] = []
written (plain text ∷ pieces) = text ++ written pieces
written (sequence parameters final ∷ pieces) =
    escape ∷ b'[' ∷ (parameters ++ final ∷ written pieces)

abbrev pub text_of : List Piece → Bytes
text_of [] = []
text_of (plain text ∷ pieces) = text ++ text_of pieces
text_of (sequence parameters final ∷ pieces) = text_of pieces

strip_plain :
    (text rest : Bytes)
    → All (λ c. (c == escape) ≡ false) text
    → strip_loop false (text ++ rest) ≡ text ++ strip_loop false rest
unfolding strip_loop
strip_plain [] rest h = refl
strip_plain (c ∷ []) [] h = refl
strip_plain (c ∷ []) (r ∷ rest) h = ground arith
strip_plain (c ∷ d ∷ text) rest h = ground (arith, strip_plain (d ∷ text) rest)

strip_parameters :
    (parameters : Bytes) (final : ℕ) (rest : Bytes)
    → All (λ c. is_letter c ≡ false) parameters
    → is_letter final ≡ true
    → strip_loop true (parameters ++ final ∷ rest) ≡ strip_loop false rest
unfolding strip_loop
strip_parameters [] final rest h f = rw (strip_loop, f) refl
strip_parameters (p ∷ ps) final rest h f =
    rw (strip_loop, h.0) (strip_parameters ps final rest h.1 f)

strip_opening : (rest : Bytes) → strip_loop false (escape ∷ b'[' ∷ rest) ≡ strip_loop true rest
unfolding strip_loop
strip_opening rest = refl

-- Stripping a text written in pieces gives its plain text, in order, and nothing else.
pub strip_ansi-written :
    (pieces : List Piece) → All IsPiece pieces → strip_ansi (written pieces) ≡ text_of pieces
unfolding strip_ansi
strip_ansi-written [] h = unfold strip_loop in refl
strip_ansi-written (plain text ∷ pieces) h =
    strip_plain text (written pieces) h.0 ∙ ap (λ t. text ++ t) (strip_ansi-written pieces h.1)
strip_ansi-written (sequence parameters final ∷ pieces) h =
    strip_opening (parameters ++ final ∷ written pieces)
    ∙ strip_parameters parameters final (written pieces) h.0.0 h.0.1
    ∙ strip_ansi-written pieces h.1
