-- ===== src/Edge/Page/Markup.antt =====
-- Values cannot change what a browser takes for markup (apps/trace-edge/src/page.rs).
use traceability.Base.{
  ℕ, String, Bool, true, ◌||◌, List, [], ◌∷◌, ◌++◌, Option, none, some, ◌≡◌, refl, ap, inl, inr,
  arith, ◌==◌, All, all, filter, bytes_eq, decimal, is_digit, decimal-digits, Bool-cases,
}
use traceability.Edge.Page.{
  Text, escape, escaped, Piece, literal, shown, text_of, shown_op, verdict_class,
}
use traceability.Edge.Page.Document.{concat}

-- The characters that open and close tags and attribute values.
abbrev pub is_markup : ℕ → Bool
is_markup c = c == b'<' || (c == b'>' || (c == b'"' || c == b'\''))

abbrev pub markup : Text → Text
markup t = filter is_markup t

markup-append : (s t : Text) → markup (s ++ t) ≡ markup s ++ markup t
markup-append [] t = refl
markup-append (c ∷ s) t = elim (Bool-cases (is_markup c)) [
  | inl m ↦ rw m (ap (◌∷◌ c) (markup-append s t))
  | inr plain ↦ rw plain (markup-append s t)
]

escaped-markup : (c : ℕ) → markup (escaped c) ≡ []
escaped-markup c = ground arith

pub escape-markup : (t : Text) → markup (escape t) ≡ []
unfolding escape
escape-markup [] = refl
escape-markup (c ∷ t) =
    rw (markup-append (escaped c) (escape t), escaped-markup c) (escape-markup t)

pub digits-markup : (d : Text) → all is_digit d ≡ true → markup d ≡ []
digits-markup [] h = refl
digits-markup (c ∷ d) h = ground (arith, h, digits-markup d)

pub shown_op-markup : (op : Option ℕ) → markup (shown_op op) ≡ []
shown_op-markup none = refl
shown_op-markup (some v) = digits-markup (decimal v) (decimal-digits v)

pub verdict_class-markup : (verdict : Text) → markup (verdict_class verdict) ≡ []
verdict_class-markup verdict =
    elim (Bool-cases (bytes_eq verdict (b'P' ∷ b'A' ∷ b'S' ∷ b'S' ∷ []))) [
      | inl pass ↦ rw pass refl
      | inr fail ↦ rw fail refl
    ]

-- The pieces of the template.
unfoldable pub skeleton : List Piece → List Piece
skeleton [] = []
skeleton (literal source ∷ pieces) = literal source ∷ skeleton pieces
skeleton (shown t ∷ pieces) = skeleton pieces

pub skeleton-append : (ps qs : List Piece) → skeleton (ps ++ qs) ≡ skeleton ps ++ skeleton qs
unfolding skeleton
skeleton-append [] qs = refl
skeleton-append (literal source ∷ ps) qs = ap (◌∷◌ (literal source)) (skeleton-append ps qs)
skeleton-append (shown t ∷ ps) qs = skeleton-append ps qs

pub append-skeleton_same :
    (ps qs us vs : List Piece)
    → skeleton ps ≡ skeleton qs
    → skeleton us ≡ skeleton vs
    → skeleton (ps ++ us) ≡ skeleton (qs ++ vs)
append-skeleton_same ps qs us vs same rest =
    rw (skeleton-append ps us, skeleton-append qs vs, same, rest) refl

-- Part by part, the same template.
abbrev pub SameSkeletons : List (List Piece) → List (List Piece) → Type 0
SameSkeletons [] [] = Unit {0}
SameSkeletons (part ∷ parts) (other ∷ others) =
    (skeleton part ≡ skeleton other) × SameSkeletons parts others
SameSkeletons _ _ = ⊥

pub concat-skeleton_same :
    (parts others : List (List Piece))
    → SameSkeletons parts others
    → skeleton (concat parts) ≡ skeleton (concat others)
concat-skeleton_same [] [] same = refl
concat-skeleton_same [] (other ∷ others) same = absurd same
concat-skeleton_same (part ∷ parts) [] same = absurd same
concat-skeleton_same (part ∷ parts) (other ∷ others) same =
    append-skeleton_same part other (concat parts) (concat others) same.0
      (concat-skeleton_same parts others same.1)

-- Every value among the pieces is without markup.
abbrev pub IsPlain : Piece → Type 0
IsPlain (shown t) = markup t ≡ []
IsPlain _ = Unit {0}

pub All-append : (ps qs : List Piece) → All IsPlain ps → All IsPlain qs → All IsPlain (ps ++ qs)
All-append [] qs h k = k
All-append (x ∷ ps) qs h k = (h.0, All-append ps qs h.1 k)

module _ (chars : String → Text) where
  pub text_of-markup :
      (pieces : List Piece)
      → All IsPlain pieces
      → markup (text_of chars pieces) ≡ markup (text_of chars (skeleton pieces))
  unfolding text_of skeleton
  text_of-markup [] h = refl
  text_of-markup (literal source ∷ pieces) h =
      rw
        (
          markup-append (chars source) (text_of chars pieces),
          markup-append (chars source) (text_of chars (skeleton pieces)),
          text_of-markup pieces h.1,
        )
        refl
  text_of-markup (shown t ∷ pieces) h =
      rw (markup-append t (text_of chars pieces), h.0) (text_of-markup pieces h.1)
