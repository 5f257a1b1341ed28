-- ===== src/Configuration/Acceptance.antt =====
-- The texts that the parser and the factory of mocktracer/src/tracer_factory.cpp accept, against the
-- documents.
use opentracing_cpp.Base.{
  ℕ, suc, ◌≡◌, refl, sym, ap, ◌∙◌, [], ◌∷◌, ◌++◌, append-nil, append_assoc, arith, Bytes, codes,
  All, ◌==◌, Bool-cases, inl, inr,
}
use opentracing_cpp.Configuration.{
  Cursor, Parse, parsed, invalid, and_then, isspace, isprint, consume_all, consume, skip_whitespace,
  consume_whitespace, consume_token, filename_loop, parse_filename, at_end, expect_end,
  parse_configuration,
}
use opentracing_cpp.Configuration.Grammar.{IsSpace, IsPlain, Layout, IsBlank, document}

and_then-parsed :
    {A B : Type 0} (p : Parse A) (next : A → Cursor → Parse B) (b : B) (j : Cursor)
    → and_then p next ≡ parsed b j
    → (a : A) × (i : Cursor) × (p ≡ parsed a i) × (next a i ≡ parsed b j)
and_then-parsed (parsed a i) next b j e = (a, i, refl, e)
and_then-parsed (invalid position message) next b j e = absurd cc

-- What is left behind a result.
rest_of : {A : Type 0} → Parse A → Bytes
rest_of (parsed a i) = i.rest
rest_of (invalid position message) = []

value_of : Parse Bytes → Bytes
value_of (parsed a i) = a
value_of (invalid position message) = []

skipped :
    (n : ℕ) (text : Bytes)
    → (ws : Bytes) × All IsSpace ws × (text ≡ ws ++ (skip_whitespace n text).rest)
unfolding skip_whitespace
skipped n [] = ([], tt, refl)
skipped n (c ∷ text) = elim (Bool-cases (isspace c)) [
  | inl space ↦
      let (ws, hs, e) = skipped (suc n) text in (c ∷ ws, (space, hs), rw space (ap (λ t. c ∷ t) e))
  | inr other ↦ ([], tt, rw other refl)
]

consume_all-parsed :
    (s : Bytes) (n : ℕ) (text : Bytes) (u : Unit {0}) (j : Cursor)
    → consume_all s n text ≡ parsed u j
    → text ≡ s ++ j.rest
unfolding consume_all rest_of
consume_all-parsed [] n text u j e = ap rest_of e
consume_all-parsed (c ∷ s) n [] u j e = absurd cc
consume_all-parsed (c ∷ s) n (x ∷ text) u j e =
    ground (arith, consume_all-parsed s (suc n) text u j)

consume_token-parsed :
    (s : Bytes) (i : Cursor) (u : Unit {0}) (j : Cursor)
    → consume_token s i ≡ parsed u j
    → (ws : Bytes) × All IsSpace ws × (i.rest ≡ ws ++ (s ++ j.rest))
unfolding consume_token consume
consume_token-parsed s i u j e =
    let (ws, hs, split) = skipped i.position i.rest in
    (
      ws,
      hs,
      split
          ∙ ap (λ t. ws ++ t)
              (consume_all-parsed s (skip_whitespace i.position i.rest).position
                (skip_whitespace i.position i.rest).rest u j (ground arith)),
    )

filename_loop-parsed :
    (out : Bytes) (n : ℕ) (text f : Bytes) (j : Cursor)
    → filename_loop out n text ≡ parsed f j
    → (g : Bytes) × (f ≡ out ++ g) × All IsPlain g × (text ≡ g ++ b'"' ∷ j.rest)
unfolding filename_loop rest_of value_of
filename_loop-parsed out n [] f j e = absurd cc
filename_loop-parsed out n (c ∷ text) f j e = elim (Bool-cases (c == b'"')) [
  | inl quote ↦
      let read = rw quote at e in
      ([], sym (append-nil out ∙ ap value_of read), tt, ground (arith, ap rest_of read))
  | inr other ↦ elim (Bool-cases (c == b'\\')) [
    | inl backslash ↦ absurd (ground arith)
    | inr plain ↦ elim (Bool-cases (isprint c)) [
      | inl printed ↦
          let (g, value, hs, split) =
            filename_loop-parsed (out ++ c ∷ []) (suc n) text f j (ground arith) in
          (c ∷ g, value ∙ append_assoc out (c ∷ []) g, (ground arith, hs), ap (λ t. c ∷ t) split)
      | inr hidden ↦ absurd (ground arith)
    ]
  ]
]

at_end-parsed :
    (f filename : Bytes) (n : ℕ) (rest : Bytes) (j : Cursor)
    → at_end f n rest ≡ parsed filename j
    → (rest ≡ []) × (f ≡ filename)
unfolding value_of
at_end-parsed f filename n [] j e = (refl, ap value_of e)
at_end-parsed f filename n (c ∷ rest) j e = absurd cc

brace-parsed :
    (f filename : Bytes) (i j : Cursor)
    → and_then (consume_token (codes "}") i) (λ _ i5. expect_end f (consume_whitespace i5))
      ≡ parsed filename j
    → (s5 s6 : Bytes) × All IsSpace s5
      × All IsSpace s6
      × (i.rest ≡ s5 ++ (codes "}" ++ s6))
      × (f ≡ filename)
brace-parsed f filename i j e =
    let (u, i5, e5, r5) = and_then-parsed (consume_token (codes "}") i) _ filename j e in
    let (s5, b5, t5) = consume_token-parsed (codes "}") i u i5 e5 in
    let (s6, b6, t6) = skipped i5.position i5.rest in
    let (t7, value) =
      at_end-parsed f filename (consume_whitespace i5).position (consume_whitespace i5).rest j r5 in
    (
      s5,
      s6,
      b5,
      b6,
      t5
          ∙ ap (λ (t : Bytes). s5 ++ (codes "}" ++ t))
              (t6 ∙ ap (λ (t : Bytes). s6 ++ t) t7 ∙ append-nil s6),
      value,
    )

filename-parsed :
    (i : Cursor) (filename : Bytes) (j : Cursor)
    → parse_filename i ≡ parsed filename j
    → (s4 : Bytes) × All IsSpace s4
      × All IsPlain filename
      × (i.rest ≡ s4 ++ (codes "\"" ++ (filename ++ b'"' ∷ j.rest)))
unfolding parse_filename
filename-parsed i filename j e =
    let (u, i4, e4, r4) = and_then-parsed (consume_token (codes "\"") i) _ filename j e in
    let (s4, b4, t4) = consume_token-parsed (codes "\"") i u i4 e4 in
    let (g, value, plain, t5) = filename_loop-parsed [] i4.position i4.rest filename j r4 in
    (s4, b4, rw value plain, t4 ∙ ap (λ (t : Bytes). s4 ++ (codes "\"" ++ t)) (rw value t5))

-- A text that the parser accepts is a document with the file name that the parser returns, with white
-- space between its tokens, and the name is of printed characters without quote and backslash.
pub document-parse_configuration :
    (text filename : Bytes) (j : Cursor)
    → parse_configuration text ≡ parsed filename j
    → (l : Layout) × IsBlank l × All IsPlain filename × (text ≡ document l filename)
unfolding parse_configuration
document-parse_configuration text filename j accepted =
    let (u1, i1, e1, r1) =
      and_then-parsed (consume_token (codes "{") (record { position = 0; rest = text })) _ filename
        j accepted in
    let (u2, i2, e2, r2) =
      and_then-parsed (consume_token (codes "\"output_file\"") i1) _ filename j r1 in
    let (u3, i3, e3, r3) = and_then-parsed (consume_token (codes ":") i2) _ filename j r2 in
    let (f, i4, e4, r4) = and_then-parsed (parse_filename i3) _ filename j r3 in
    let (s1, b1, t1) = consume_token-parsed (codes "{") _ u1 i1 e1 in
    let (s2, b2, t2) = consume_token-parsed (codes "\"output_file\"") i1 u2 i2 e2 in
    let (s3, b3, t3) = consume_token-parsed (codes ":") i2 u3 i3 e3 in
    let (s4, b4, plain, t4) = filename-parsed i3 f i4 e4 in
    let (s5, s6, b5, b6, t5, value) = brace-parsed f filename i4 j r4 in
    (
      record { s1 = s1; s2 = s2; s3 = s3; s4 = s4; s5 = s5; s6 = s6 },
      (b1, b2, b3, b4, b5, b6),
      rw (sym value) plain,
      t1
          ∙ ap (λ (t : Bytes). s1 ++ (codes "{" ++ t))
              (t2
                ∙ ap (λ (t : Bytes). s2 ++ (codes "\"output_file\"" ++ t))
                    (t3
                      ∙ ap (λ (t : Bytes). s3 ++ (codes ":" ++ t))
                          (t4
                            ∙ rw value (
                                ap (λ (t : Bytes). s4 ++ (codes "\"" ++ (filename ++ b'"' ∷ t)))
                                  t5)))),
    )
