-- ===== src/Json/Emits.antt =====
-- What a step of the writer of mocktracer/src/json.cpp adds to the text of a stream in base 10.
use opentracing_cpp.Base.{
  ℕ, zero, suc, ◌+◌, ◌-◌, ◌/◌, ◌%◌, ◌<◌, ◌≡◌, refl, sym, ap, ◌∙◌, Bool, true, false, List, All, [],
  ◌∷◌, ◌++◌, append_assoc, arith, Bytes, codes, length, replicate, ltb, Bool-cases, inl, inr,
  if◌then◌else◌,
}
use opentracing_cpp.Base.Int.{ℤ, pos, negsuc}
use opentracing_cpp.Json.Numbers.{integer_text}
use opentracing_cpp.Json.Text.{Writer, emit, ◌▷◌, digit, digits_in, print_number}
use opentracing_cpp.Json.{
  write_escaped_string, write_items, write_pair, write_id, write_uint64, write_int64,
  write_duration, microseconds,
}
use opentracing_cpp.Json.Escape.{write_escaped_string_lem, escape_all, escape_char}
use opentracing_cpp.Json.Tree.{Json, show, show_text, show_items, show_members, text}
use opentracing_cpp.Json.SpanTree.{items_of, members_of, id_text, time_tree, IsClean}

-- A stream in base 10 with a text.
abbrev pub at : Bytes → Writer
at t = record { text = t; is_hex = false }

-- In base 10 the step adds the text, and the base stays.
pub record Emits (f : Writer → Writer) (s : Bytes) : Type 0 where
  pub adds : (t : Bytes) → f (at t) ≡ at (t ++ s)

pub Emits-emit : (s : Bytes) → Emits (emit s) s
unfolding emit
Emits-emit s = record { adds = λ t. refl }

-- One step and then another.
infixr 21 ◌▸◌
pub ◌▸◌ : {f g : Writer → Writer} {s u : Bytes} → Emits f s → Emits g u → Emits (f ▷ g) (s ++ u)
◌▸◌ {f} {g} {s} {u} ef eg = record {
  adds = λ t. ap g (ef.adds t) ∙ eg.adds (t ++ s) ∙ ap at (append_assoc t s u);
}

Emits-as : {f : Writer → Writer} {s u : Bytes} → s ≡ u → Emits f s → Emits f u
Emits-as e ef = rw e at ef

pub Emits-string : (s : Bytes) → IsClean s → Emits (write_escaped_string s) (show_text s)
unfolding show_text
Emits-string s h = record {
  adds = λ t.
      write_escaped_string_lem s (at t)
      ∙ rw h.0 (ap at (append_assoc t (b'"' ∷ escape_all s) (b'"' ∷ [])));
}

-- An element with a comma behind it, or the last.
abbrev comma_if : Bool → Writer → Writer
comma_if b w = if b then emit (codes ",") w else w

-- The loop over a container and the bracket behind it write the elements with commas between them.
pub Emits-write_items :
    {A : Type 0} {P : A → Type 0} (write : A → Writer → Writer) (tree : A → Json)
    → ((x : A) → P x → Emits (write x) (show (tree x)))
    → (xs : List A) (num index : ℕ) → All P xs
    → num ≡ index + length xs
    → Emits (write_items write num index xs ▷ emit (codes "]")) (show_items true (items_of tree xs))
unfolding write_items items_of show_items
Emits-write_items write tree each [] num index h n = Emits-emit (codes "]")
Emits-write_items write tree each (x ∷ []) num index (hx, hs) n =
    let last : ltb (index + 1) num ≡ false = ground arith in
    record { adds = λ t. rw last ((◌▸◌ (each x hx) (Emits-emit (codes "]"))).adds t) }
Emits-write_items write tree each (x ∷ y ∷ ys) num index (hx, hs) n =
    let more : ltb (index + 1) num ≡ true = ground arith in
    let rest = Emits-write_items write tree each (y ∷ ys) num (index + 1) hs (omega arith) in
    let all = ◌▸◌ (each x hx) (◌▸◌ (Emits-emit (codes ",")) rest) in
    record { adds = λ t. rw more (all.adds t) }

-- A key, its value and what follows.
pub Emits-entry :
    {write rest : Writer → Writer} {s u : Bytes} (k : Bytes)
    → IsClean k
    → Emits write s
    → Emits rest u
    → Emits
        (write_escaped_string k ▷ emit (codes ":") ▷ write ▷ rest)
        (show_text k ++ (b':' ∷ (s ++ u)))
Emits-entry {write} {rest} {s} {u} k h es eu =
    Emits-as
      (append_assoc (show_text k ++ codes ":") s u
        ∙ append_assoc (show_text k) (codes ":") (s ++ u))
      (◌▸◌ (◌▸◌ (◌▸◌ (Emits-string k h) (Emits-emit (codes ":"))) es) eu)

pub Emits-write_members :
    {A : Type 0} (P : A → Type 0) (write : A → Writer → Writer) (tree : A → Json)
    → ((x : A) → P x → Emits (write x) (show (tree x)))
    → (xs : List (Bytes × A)) (num index : ℕ) → All (λ (p : Bytes × A). IsClean p.0 × P p.1) xs
    → num ≡ index + length xs
    → Emits
        (write_items (write_pair write) num index xs ▷ emit (codes "}"))
        (show_members true (members_of tree xs))
unfolding write_items members_of show_members
Emits-write_members P write tree each [] num index h n = Emits-emit (codes "}")
Emits-write_members P write tree each ((k, x) ∷ []) num index ((hk, hx), hs) n =
    let last : ltb (index + 1) num ≡ false = ground arith in
    let all = Emits-entry k hk (each x hx) (Emits-emit (codes "}")) in
    record { adds = λ t. rw last (all.adds t) }
Emits-write_members P write tree each ((k, x) ∷ y ∷ ys) num index ((hk, hx), hs) n =
    let more : ltb (index + 1) num ≡ true = ground arith in
    let rest = Emits-write_members P write tree each (y ∷ ys) num (index + 1) hs (omega arith) in
    let all = Emits-entry k hk (each x hx) (◌▸◌ (Emits-emit (codes ",")) rest) in
    record { adds = λ t. rw more (all.adds t) }

escape_all-append : (s t : Bytes) → escape_all (s ++ t) ≡ escape_all s ++ escape_all t
escape_all-append [] t = refl
escape_all-append (c ∷ s) t =
    ap (λ u. escape_char c ++ u) (escape_all-append s t)
    ∙ sym (append_assoc (escape_char c) (escape_all s) (escape_all t))

escape_all-replicate : (k : ℕ) → escape_all (replicate k b'0') ≡ replicate k b'0'
escape_all-replicate zero = refl
escape_all-replicate (suc k) = ap (λ u. b'0' ∷ u) (escape_all-replicate k)

escape_char-digit : (d : ℕ) → d < 16 → escape_char (digit d) ≡ digit d ∷ []
escape_char-digit d h = ground arith

escape_all-digits_in : (fuel n : ℕ) → escape_all (digits_in 16 fuel n) ≡ digits_in 16 fuel n
unfolding digits_in
escape_all-digits_in zero n = refl
escape_all-digits_in (suc fuel) n = elim (Bool-cases (ltb n 16)) [
  | inl small ↦ rw (small, escape_char-digit n (ground arith)) refl
  | inr large ↦
      rw
        (
          large,
          escape_all-append (digits_in 16 fuel (n / 16)) (digit (n % 16) ∷ []),
          escape_all-digits_in fuel (n / 16),
          escape_char-digit (n % 16) (omega arith),
        )
        refl
]

escape_all-id_text : (id : ℕ) → escape_all (id_text id) ≡ id_text id
unfolding print_number
escape_all-id_text id =
    let digits = digits_in 16 (suc id) id in
    let zeros = replicate (16 - length digits) b'0' in
    escape_all-append zeros digits
    ∙ rw (escape_all-replicate (16 - length digits), escape_all-digits_in (suc id) id) refl

pub Emits-write_id : (id : ℕ) → Emits (write_id id) (show (text (id_text id)))
unfolding write_id show show_text
Emits-write_id id =
    Emits-as (ap (λ s. b'"' ∷ (s ++ b'"' ∷ [])) (sym (escape_all-id_text id))) (Emits-emit _)

pub Emits-write_uint64 : (n : ℕ) → Emits (write_uint64 n) (print_number 10 n)
unfolding write_uint64 emit
Emits-write_uint64 n = record { adds = λ t. refl }

pub Emits-write_int64 : (n : ℤ) → Emits (write_int64 n) (integer_text n)
unfolding write_int64 emit
Emits-write_int64 (pos n) = record { adds = (Emits-write_uint64 n).adds }
Emits-write_int64 (negsuc n) = record { adds = λ t. refl }

pub Emits-write_duration : (d : ℤ) → Emits (write_duration d) (show (time_tree d))
unfolding write_duration show
Emits-write_duration d = Emits-write_int64 (microseconds d)

emit-append : (u r : Bytes) (w : Writer) → emit (u ++ r) w ≡ emit r (emit u w)
unfolding emit
emit-append u r w =
    ap (λ (x : Bytes). record { text = x; is_hex = w.is_hex }) (sym (append_assoc w.text u r))

-- More text behind the closing bracket, in the same call of `<<`.
pub Emits-close :
    {s : Bytes} (f : Writer → Writer) (u r : Bytes)
    → Emits (f ▷ emit u) s
    → Emits (f ▷ emit (u ++ r)) (s ++ r)
Emits-close f u r e = record { adds = λ t. emit-append u r (f (at t)) ∙ (e ▸ Emits-emit r).adds t }

-- The same with a further step.
pub Emits-close_then :
    {s v : Bytes} {g : Writer → Writer} (f : Writer → Writer) (u r : Bytes)
    → Emits (f ▷ emit u) s
    → Emits g v
    → Emits (f ▷ emit (u ++ r) ▷ g) (s ++ (r ++ v))
Emits-close_then {s} {v} {g} f u r e eg = record {
  adds = λ t. ap g (emit-append u r (f (at t))) ∙ (e ▸ (Emits-emit r ▸ eg)).adds t;
}

pub Emits-if :
    {f g : Writer → Writer} (b : Bool) (s u : Json)
    → Emits f (show s)
    → Emits g (show u)
    → Emits (if b then f else g) (show (if b then s else u))
Emits-if true s u ef eg = ef
Emits-if false s u ef eg = eg
