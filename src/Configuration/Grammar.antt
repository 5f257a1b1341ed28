-- ===== src/Configuration/Grammar.antt =====
-- The configurations that the parser of mocktracer/src/tracer_factory.cpp accepts, written out.
use opentracing_cpp.Base.{
  ℕ, suc, ◌+◌, ◌≡◌, ◌≢◌, refl, ap, ◌∙◌, true, false, not, ◌&&◌, ◌||◌, [], ◌∷◌, ◌++◌, append-nil,
  append_assoc, arith, Bytes, codes, All, length, length-append, ◌==◌,
}
use opentracing_cpp.Configuration.{
  parsed, isspace, isprint, consume_all, consume, skip_whitespace, consume_token, filename_loop,
  parse_filename, parse_configuration,
}

abbrev pub IsSpace : ℕ → Type 0
IsSpace c = isspace c ≡ true

-- A character that may stand in a file name: it is printed, and neither a quote nor a backslash.
abbrev pub IsPlain : ℕ → Type 0
IsPlain c = (isprint c && not (c == b'"' || c == b'\\')) ≡ true

-- White space may stand before each of the five tokens, and at the end.
pub record Layout : Type 0 where
  pub s1 : Bytes
  pub s2 : Bytes
  pub s3 : Bytes
  pub s4 : Bytes
  pub s5 : Bytes
  pub s6 : Bytes

abbrev pub IsBlank : Layout → Type 0
IsBlank l =
    All IsSpace l.s1
    × All IsSpace l.s2
    × All IsSpace l.s3
    × All IsSpace l.s4
    × All IsSpace l.s5
    × All IsSpace l.s6

-- The grammar: what may stand behind the file name, behind the opening brace, and all of it.
abbrev after_file : Layout → Bytes
after_file l = l.s5 ++ (codes "}" ++ l.s6)

abbrev after_brace : Layout → Bytes → Bytes
after_brace l filename =
    l.s2
    ++ (codes "\"output_file\""
        ++ (l.s3 ++ (codes ":" ++ (l.s4 ++ (codes "\"" ++ (filename ++ b'"' ∷ after_file l))))))

abbrev pub document : Layout → Bytes → Bytes
document l filename = l.s1 ++ (codes "{" ++ after_brace l filename)

skip_space :
    (ws rest : Bytes) (n : ℕ)
    → All IsSpace ws
    → skip_whitespace n (ws ++ rest) ≡ skip_whitespace (n + length ws) rest
unfolding skip_whitespace
skip_space [] rest n hs = ap (λ (k : ℕ). skip_whitespace k rest) (omega arith)
skip_space (c ∷ ws) rest n (h, hs) =
    rw h (skip_space ws rest (suc n) hs ∙ ap (λ (k : ℕ). skip_whitespace k rest) (omega arith))

consume_all-append :
    (s rest : Bytes) (n : ℕ)
    → consume_all s n (s ++ rest) ≡ parsed tt (record { position = n + length s; rest = rest })
unfolding consume_all
consume_all-append [] rest n =
    ap (λ (k : ℕ). parsed tt (record { position = k; rest = rest })) (omega arith)
consume_all-append (c ∷ s) rest n = ground (arith, consume_all-append s rest (suc n))

-- What a token needs in order to be found behind white space.
abbrev IsStart : Bytes → Type 0
IsStart [] = Unit
IsStart (c ∷ s) = isspace c ≡ false

consume_token-append :
    (ws s rest : Bytes) (n : ℕ)
    → All IsSpace ws
    → IsStart s
    → s ≢ []
    → consume_token s (record { position = n; rest = ws ++ (s ++ rest) })
      ≡ parsed tt (record { position = n + length ws + length s; rest = rest })
unfolding consume_token consume skip_whitespace
consume_token-append ws [] rest n hs start ne = absurd (ne refl)
consume_token-append ws (c ∷ s) rest n hs start ne =
    rw (skip_space ws (c ∷ s ++ rest) n hs, start)
      (ground (arith, length-append s rest, consume_all-append (c ∷ s) rest (n + length ws)))

filename_loop-append :
    (filename out rest : Bytes) (n : ℕ)
    → All IsPlain filename
    → filename_loop out n (filename ++ b'"' ∷ rest)
      ≡ parsed (out ++ filename) (record { position = n + length filename + 1; rest = rest })
unfolding filename_loop
filename_loop-append [] out rest n hs = rw (append-nil out) (ground arith)
filename_loop-append (c ∷ filename) out rest n (h, hs) = ground (
  arith,
  filename_loop-append filename (out ++ c ∷ []) rest (suc n) hs,
  append_assoc out (c ∷ []) filename,
)

cons_ne_nil : (c : ℕ) (s : Bytes) → c ∷ s ≢ []
cons_ne_nil c s e = cc

skip_whitespace-end :
    (ws : Bytes) (n : ℕ)
    → All IsSpace ws
    → skip_whitespace n ws ≡ record { position = n + length ws; rest = [] }
unfolding skip_whitespace
skip_whitespace-end [] n hs = ap (λ (k : ℕ). record { position = k; rest = [] }) (omega arith)
skip_whitespace-end (c ∷ ws) n (h, hs) = rw h (
    skip_whitespace-end ws (suc n) hs
    ∙ ap (λ (k : ℕ). record { position = k; rest = [] }) (omega arith))

length-document :
    (l : Layout) (filename : Bytes)
    → length (document l filename)
      ≡ length l.s1
        + length l.s2
        + length l.s3
        + length l.s4
        + length l.s5
        + length l.s6
        + length filename
        + 18
length-document l filename =
    rw
      (
        length-append l.s1 (codes "{" ++ after_brace l filename),
        length-append l.s2 (
            codes "\"output_file\""
            ++ (l.s3
                ++ (codes ":" ++ (l.s4 ++ (codes "\"" ++ (filename ++ b'"' ∷ after_file l)))))),
        length-append l.s3
            (codes ":" ++ (l.s4 ++ (codes "\"" ++ (filename ++ b'"' ∷ after_file l)))),
        length-append l.s4 (codes "\"" ++ (filename ++ b'"' ∷ after_file l)),
        length-append filename (b'"' ∷ after_file l),
        length-append l.s5 (codes "}" ++ l.s6),
      )
      (omega arith)

-- Every document with white space between its tokens, and a file name of printed characters without
-- quote and backslash, is accepted with this file name, and is read to its end.
pub parse_configuration-document :
    (l : Layout) (filename : Bytes)
    → IsBlank l
    → All IsPlain filename
    → parse_configuration (document l filename)
      ≡ parsed filename (record { position = length (document l filename); rest = [] })
unfolding parse_configuration parse_filename
parse_configuration-document l filename (b1, b2, b3, b4, b5, b6) plain =
    rw
      (
        consume_token-append l.s1 (codes "{") (after_brace l filename) 0 b1 refl (cons_ne_nil _ _),
        consume_token-append l.s2 (codes "\"output_file\"") _ _ b2 refl (cons_ne_nil _ _),
        consume_token-append l.s3 (codes ":") _ _ b3 refl (cons_ne_nil _ _),
        consume_token-append l.s4 (codes "\"") _ _ b4 refl (cons_ne_nil _ _),
        filename_loop-append filename [] (after_file l) _ plain,
        consume_token-append l.s5 (codes "}") _ _ b5 refl (cons_ne_nil _ _),
      )
      (rw (skip_whitespace-end l.s6 _ b6) (
        ap (λ (k : ℕ). parsed filename (record { position = k; rest = [] }))
          (omega (arith, length-document l filename))))
