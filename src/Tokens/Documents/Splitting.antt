-- ===== src/Tokens/Documents/Splitting.antt =====
-- The documents of a token stream.
use niceyaml.Prelude.{
  ◌≡◌, refl, ap, ◌∙◌, true, false, List, [], ◌∷◌, ◌++◌, map, append_assoc, Bool-cases, inl, inr,
}
use niceyaml.Tokens.{Token}
use niceyaml.Tokens.Documents.{is_header, split_loop, split_documents, clone_with_reset_positions}

abbrev pub concat : List (List Token) → List Token
concat [] = []
concat (d ∷ ds) = d ++ concat ds

-- No token is a document header.
abbrev pub IsPlain : List Token → Type 0
IsPlain [] = Unit
IsPlain (t ∷ ts) = (is_header t ≡ false) × IsPlain ts

-- A document: some tokens, of which only the first may be a header.
abbrev pub IsDocument : List Token → Type 0
IsDocument [] = ⊥
IsDocument (t ∷ ts) = IsPlain ts

-- A document that a header begins.
abbrev pub IsHeaded : List Token → Type 0
IsHeaded [] = ⊥
IsHeaded (t ∷ ts) = (is_header t ≡ true) × IsPlain ts

abbrev pub AllHeaded : List (List Token) → Type 0
AllHeaded [] = Unit
AllHeaded (d ∷ ds) = IsHeaded d × AllHeaded ds

-- The documents of a stream: all but the first begin with a header.
abbrev pub AreDocuments : List (List Token) → Type 0
AreDocuments [] = Unit
AreDocuments (d ∷ ds) = IsDocument d × AllHeaded ds

IsPlain-snoc :
    (ts : List Token) (t : Token) → IsPlain ts → is_header t ≡ false → IsPlain (ts ++ t ∷ [])
IsPlain-snoc [] t h e = (e, tt)
IsPlain-snoc (u ∷ ts) t h e = (h.0, IsPlain-snoc ts t h.1 e)

IsDocument-snoc :
    (u : Token) (ts : List Token) (t : Token)
    → IsDocument (u ∷ ts)
    → is_header t ≡ false
    → IsDocument (u ∷ ts ++ t ∷ [])
IsDocument-snoc u ts t h e = IsPlain-snoc ts t h e

-- The loop with a current document that a header may begin.
split_loop-concat :
    (u : Token) (ts rest : List Token) → concat (split_loop false (u ∷ ts) rest) ≡ u ∷ ts ++ rest
unfolding split_loop
split_loop-concat u ts [] = refl
split_loop-concat u ts (t ∷ rest) = elim (Bool-cases (is_header t)) [
  | inl head ↦ rw head (ap (λ r. u ∷ ts ++ r) (split_loop-concat t [] rest))
  | inr plain ↦
      rw plain
        (split_loop-concat u (ts ++ t ∷ []) rest ∙ ap (λ r. u ∷ r) (append_assoc ts (t ∷ []) rest))
]

-- The documents that are left, of which the first is the current one.
split_loop-AreDocuments :
    (u : Token) (ts rest : List Token)
    → IsPlain ts
    → AreDocuments (split_loop false (u ∷ ts) rest)
      × (is_header u ≡ true → AllHeaded (split_loop false (u ∷ ts) rest))
unfolding split_loop
split_loop-AreDocuments u ts [] h = ((h, tt), λ e. ((e, h), tt))
split_loop-AreDocuments u ts (t ∷ rest) h = elim (Bool-cases (is_header t)) [
  | inl head ↦
      let later = (split_loop-AreDocuments t [] rest tt).1 head in
      rw head ((h, later), λ e. ((e, h), later))
  | inr plain ↦ rw plain (split_loop-AreDocuments u (ts ++ t ∷ []) rest (IsPlain-snoc ts t h plain))
]

-- With `WithResetPositions` each document is a clone of the document without.
split_loop-reset :
    (u : Token) (ts rest : List Token)
    → split_loop true (u ∷ ts) rest
      ≡ map clone_with_reset_positions (split_loop false (u ∷ ts) rest)
unfolding split_loop
split_loop-reset u ts [] = refl
split_loop-reset u ts (t ∷ rest) = elim (Bool-cases (is_header t)) [
  | inl head ↦
      rw head (ap (λ r. clone_with_reset_positions (u ∷ ts) ∷ r) (split_loop-reset t [] rest))
  | inr plain ↦ rw plain (split_loop-reset u (ts ++ t ∷ []) rest)
]

first_document :
    (t : Token) (rest : List Token)
    → (concat (split_loop false (t ∷ []) rest) ≡ t ∷ rest)
      × AreDocuments (split_loop false (t ∷ []) rest)
      × (split_loop true (t ∷ []) rest
          ≡ map clone_with_reset_positions (split_loop false (t ∷ []) rest))
first_document t rest = (
  split_loop-concat t [] rest,
  (split_loop-AreDocuments t [] rest tt).0,
  split_loop-reset t [] rest,
)

-- SplitDocuments loses no token and moves none: its documents put behind each other are the stream.
-- Each has a token, only its first token may be a document header, and every document but the first
-- begins with one. With WithResetPositions it yields the clones of the same documents.
pub split_documents-AreDocuments :
    (tks : List Token)
    → (concat (split_documents false tks) ≡ tks)
      × AreDocuments (split_documents false tks)
      × (split_documents true tks ≡ map clone_with_reset_positions (split_documents false tks))
unfolding split_documents split_loop
split_documents-AreDocuments [] = (refl, tt, refl)
split_documents-AreDocuments (t ∷ rest) = elim (Bool-cases (is_header t)) [
  | inl head ↦ rw head (first_document t rest)
  | inr plain ↦ rw plain (first_document t rest)
]
