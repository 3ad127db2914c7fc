-- ===== src/Lex/Stream/Tiling.antt =====
-- The tokens of a file tile its text (src/lex/token_stream.cc).
use mathlib.Core.List.{append_assoc, append-nil}
use native.Mathlib.Nat.{zero-add, suc-add}
use mincplus.Prelude.{
  ℕ, zero, suc, ◌+◌, ◌-◌, ◌%◌, ◌^◌, ◌≤◌, ◌<◌, ◌≡◌, refl, sym, ap, ◌∙◌, subst, Bool, true, false,
  leb, ◌==◌, if◌then◌else◌, some, List, [], ◌∷◌, ◌++◌, length, take, drop, arith, dec_lt,
  take-append-drop,
}
use mincplus.Support.Span.{Span}
use mincplus.Lex.TokenKind.{is_end_of_file}
use mincplus.Lex.Token.{Token, token_end}
use mincplus.Lex.Lexer.{lex_one}
use mincplus.Lex.Lexer.Progress.{
  lex_one_progress, lex_one_end, lex_one_kind, lex_one_end_of_file, drop_length,
}
use mincplus.Lex.Stream.{
  finish_stream, TokenStream, add_tokens, Build, no_tokens, add_token, lex_from,
  ends_at_end_of_file, stream_of, lex_stream, from_preprocessed,
}

-- The bytes of a token.
abbrev pub spelling : List ℕ → Token → List ℕ
spelling text t = take t.length (drop t.offset text)

-- The bytes of some tokens, one after the other.
abbrev pub spellings : List ℕ → List Token → List ℕ
spellings text [] = []
spellings text (t ∷ ts) = spelling text t ++ spellings text ts

-- Tokens that lexing yields from an offset on: each begins where the one before it ended, and the last
-- is the end of file at the end of the text.
pub data Tiles (text : List ℕ) : ℕ → List Token → Type 0 where
  last : {offset : ℕ} → offset ≡ length text → Tiles text offset (lex_one text offset ∷ [])
  more :
      {offset : ℕ} {ts : List Token}
      → offset < length text
      → Tiles text (token_end (lex_one text offset)) ts
      → Tiles text offset (lex_one text offset ∷ ts)

drop_nil : (n : ℕ) → drop {A = ℕ} n [] ≡ []
drop_nil zero = refl
drop_nil (suc n) = refl

drop-add : (m n : ℕ) (xs : List ℕ) → drop (m + n) xs ≡ drop n (drop m xs)
drop-add zero n xs = rw zero-add refl
drop-add (suc m) n [] = rw suc-add (sym (drop_nil n))
drop-add (suc m) n (x ∷ xs) = rw suc-add (drop-add m n xs)

Tiles-spellings :
    {text : List ℕ} {offset : ℕ} {ts : List Token}
    → length text < 2 ^ 32
    → Tiles text offset ts
    → spellings text ts ≡ drop offset text
Tiles-spellings {text} small (last e) = rw (e, lex_one_end_of_file text) (sym (drop_length text))
Tiles-spellings {text} small (more {offset} below tiles) =
    let t = lex_one text offset in
    let starts = (lex_one_progress text offset small below).0 in
    let ends = lex_one_end text offset small below in
    rw (Tiles-spellings small tiles, ends, drop-add offset t.length text, starts)
      (take-append-drop t.length (drop offset text))

ends_here :
    (text : List ℕ) (offset : ℕ)
    → offset ≡ length text
    → is_end_of_file (lex_one text offset).kind ≡ true
ends_here text offset e = rw (e, lex_one_end_of_file text) refl

-- Lexing from an offset on adds tokens that tile the text from there on.
lex_from-Tiles :
    (fuel : ℕ) (text : List ℕ) (offset : ℕ) (b : Build)
    → length text < 2 ^ 32
    → offset ≤ length text
    → length text - offset < fuel
    → (ts : List Token) × Tiles text offset ts
      × (lex_from fuel text offset b ≡ some (add_tokens offset ts b).1)
unfolding lex_from add_tokens
lex_from-Tiles zero text offset b small inside enough = absurd (omega arith)
lex_from-Tiles (suc fuel) text offset b small inside enough = elim (dec_lt offset (length text)) [
  | no out ↦
      let e : offset ≡ length text = omega arith in
      (lex_one text offset ∷ [], last e, rw (ends_here text offset e) refl)
  | yes below ↦
      let (starts, takes, ends) = lex_one_progress text offset small below in
      let t = lex_one text offset in
      let moves : leb (token_end t) offset ≡ false = ground arith in
      let (ts, tiles, run) =
        lex_from-Tiles fuel text (token_end t) (add_token offset t b) small ends
          (omega (arith, takes)) in
      (t ∷ ts, more below tiles, rw (lex_one_kind text offset below, moves) run)
]

add_tokens-tokens :
    (offset : ℕ) (ts : List Token) (b : Build) → (add_tokens offset ts b).1.tokens ≡ b.tokens ++ ts
unfolding add_tokens add_token
add_tokens-tokens offset [] b = sym (append-nil b.tokens)
add_tokens-tokens offset (t ∷ ts) b =
    rw (add_tokens-tokens (token_end t) ts (add_token offset t b))
      (append_assoc b.tokens (t ∷ []) ts)

-- Tokens that tile a text are found to be contiguous, and to reach its end.
add_tokens-Tiles :
    {text : List ℕ} {offset : ℕ} {ts : List Token} (b : Build)
    → length text < 2 ^ 32
    → Tiles text offset ts
    → ((add_tokens offset ts b).1.contiguous ≡ b.contiguous)
      × ((add_tokens offset ts b).0 ≡ length text)
unfolding add_tokens add_token token_end
add_tokens-Tiles {text} b small (last e) =
    rw (e, lex_one_end_of_file text) (ground arith, ground arith)
add_tokens-Tiles {text} b small (more {offset} {ts} below tiles) =
    let t = lex_one text offset in
    let starts = (lex_one_progress text offset small below).0 in
    let (contiguous, covered) = add_tokens-Tiles (add_token offset t b) small tiles in
    (contiguous ∙ ground (arith, starts), covered)

Tiles-ends :
    {text : List ℕ} {offset : ℕ} {ts : List Token}
    → length text < 2 ^ 32
    → Tiles text offset ts
    → ends_at_end_of_file text ts ≡ true
unfolding ends_at_end_of_file
Tiles-ends {text} small (last e) = rw (e, lex_one_end_of_file text) (ground arith)
Tiles-ends small (more below (last e)) = Tiles-ends small (last e)
Tiles-ends small (more below (more below' tiles)) = Tiles-ends small (more below' tiles)

-- What lexing yields is built of tokens that tile the text.
lex_stream_built :
    (file : ℕ) (text : List ℕ)
    → length text < 2 ^ 32
    → (ts : List Token) × Tiles text 0 ts
      × (lex_stream file text ≡ some (stream_of file text (add_tokens 0 ts no_tokens).1))
unfolding lex_stream
lex_stream_built file text small =
    let (ts, tiles, run) =
      lex_from-Tiles (length text + 1) text 0 no_tokens small (omega arith) (omega arith) in
    (ts, tiles, ap (finish_stream file text) run)

-- A text of fewer than 2^32 bytes is lexed to its end, the stream is lossless, its tokens spell
-- the text, and each is what the lexer finds where the one before it ended.
pub lex_stream_lossless :
    (file : ℕ) (text : List ℕ)
    → length text < 2 ^ 32
    → (s : TokenStream) × (lex_stream file text ≡ some s)
      × (s.lossless ≡ true)
      × (spellings text s.tokens ≡ text)
      × Tiles text 0 s.tokens
lex_stream_lossless file text small =
    let (ts, tiles, run) = lex_stream_built file text small in
    let built = add_tokens-tokens 0 ts no_tokens in
    let (contiguous, covered) = add_tokens-Tiles no_tokens small tiles in
    (
      stream_of file text (add_tokens 0 ts no_tokens).1,
      run,
      rw (contiguous, built, Tiles-ends small tiles) refl,
      rw built (Tiles-spellings small tiles),
      rw built tiles,
    )

if_same : (b : Bool) → (if b then [] else []) ≡ ◌++◌ {A = Span} [] []
if_same true = refl
if_same false = refl

from_preprocessed_built :
    (file : ℕ) (text : List ℕ) {ts : List Token}
    → length text < 2 ^ 32
    → Tiles text 0 ts
    → let s = stream_of file text (add_tokens 0 ts no_tokens).1 in
      from_preprocessed file text s.tokens [] ≡ s
unfolding from_preprocessed
from_preprocessed_built file text {ts} small tiles =
    let (contiguous, covered) = add_tokens-Tiles no_tokens small tiles in
    let reached : (length text == length text % 2 ^ 32) ≡ true = ground arith in
    rw (add_tokens-tokens 0 ts no_tokens, contiguous, covered, Tiles-ends small tiles)
      (rw (reached, if_same (0 == length ts)) refl)

-- A stream of the tokens that lexing a text of fewer than 2^32 bytes yields is the stream of that
-- lexing.
pub from_preprocessed-lex_stream :
    (file : ℕ) (text : List ℕ) (s : TokenStream)
    → length text < 2 ^ 32
    → lex_stream file text ≡ some s
    → from_preprocessed file text s.tokens [] ≡ s
from_preprocessed-lex_stream file text s small lexed =
    let (ts, tiles, run) = lex_stream_built file text small in
    let same : stream_of file text (add_tokens 0 ts no_tokens).1 ≡ s = cc in
    subst (λ (x : TokenStream). from_preprocessed file text x.tokens [] ≡ x) same
      (from_preprocessed_built file text small tiles)
