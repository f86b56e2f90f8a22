-- ===== src/Tests/Codec.antt =====
-- A pair of inverse functions between byte strings and texts, in the place of base 58: a byte `n` is
-- `n` letters `a` and one `b`.
use Prim.Native.Char.{code}
use text.Mathlib.TextEquality.{Char-path}
use solana_indexer_plugin.Base.{
  ℕ, zero, suc, ◌+◌, Bytes, String, Option, none, some, [], ◌∷◌, bind, ◌==◌, ◌≡◌, refl, sym, ap,
  ◌∙◌, arith, if◌then◌else◌, Bool-cases, inl, inr, bind-eq-some,
}

abbrev letters : ℕ → String → String
letters zero s = s
letters (suc n) s = letters n (String.◌∷◌ "a" s)

abbrev pub encode : Bytes → String
encode [] = ""
encode (n ∷ bytes) = letters n (String.◌∷◌ "b" (encode bytes))

-- Decoding, after `n` letters `a`.
unfoldable pub parse : ℕ → String → Option Bytes
parse n String.[] = if n == 0 then some [] else none
parse n (String.◌∷◌ c s) =
    let more = parse (suc n) s in
    let rest = parse zero s in
    if code c == 97
    then more
    else if code c == 98
    then bind rest (λ bytes. some (n ∷ bytes))
    else none

abbrev pub decode : String → Option Bytes
decode s = parse zero s

parse-letters : (m n : ℕ) (s : String) → parse m (letters n s) ≡ parse (n + m) s
unfolding parse
parse-letters m zero s = ap (λ k. parse k s) (omega arith)
parse-letters m (suc n) s = parse-letters m n (String.◌∷◌ "a" s) ∙ ap (λ k. parse k s) (omega arith)

pub decode-encode : (bytes : Bytes) → decode (encode bytes) ≡ some bytes
unfolding parse
decode-encode [] = refl
decode-encode (n ∷ bytes) =
    parse-letters zero n (String.◌∷◌ "b" (encode bytes))
    ∙ rw (decode-encode bytes) (ap (λ k. some (k ∷ bytes)) (omega arith))

encode-parse :
    (n : ℕ) (s : String) (bytes : Bytes) → parse n s ≡ some bytes → encode bytes ≡ letters n s
unfolding parse
encode-parse zero String.[] bytes h = let e : [] ≡ bytes = cc in ap encode (sym e)
encode-parse (suc n) String.[] bytes h = ground arith
encode-parse n (String.◌∷◌ c s) bytes h = elim (Bool-cases (code c == 97)) [
  | inl a ↦
      encode-parse (suc n) s bytes (rw a at h)
      ∙ ap (λ d. letters n (String.◌∷◌ d s)) (sym (Char-path c "a" (ground arith)))
  | inr not_a ↦ elim (Bool-cases (code c == 98)) [
    | inl b ↦
        let (rest, at_rest, e) =
          bind-eq-some (parse zero s) (λ bytes. some (n ∷ bytes)) (rw (not_a, b) at h) in
        let e' : (n ∷ rest) ≡ bytes = cc in
        sym (ap encode e')
        ∙ (ap (λ u. letters n (String.◌∷◌ "b" u)) (encode-parse zero s rest at_rest)
            ∙ ap (λ d. letters n (String.◌∷◌ d s)) (sym (Char-path c "b" (ground arith))))
    | inr not_b ↦ ground arith
  ]
]

pub encode-decode : (s : String) (bytes : Bytes) → decode s ≡ some bytes → encode bytes ≡ s
encode-decode s bytes h = encode-parse zero s bytes h
