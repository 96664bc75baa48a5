-- ===== src/Store/Listing/Pages.antt =====
-- Following the continuation tokens.
use locals.Base.{
  ℕ, zero, suc, ◌≤◌, ◌<◌, ◌≡◌, inl, inr, refl, sym, ap, ◌∙◌, subst, Bool, true, false, List, [],
  ◌∷◌, ◌++◌, append_assoc, arith, Bytes, ltb, if◌then◌else◌, Bool-cases, All, All-append_right, beq,
  lt_text, lt_text_irrefl, lt_text_asymm, length, length-drop, length-take, take, drop,
  take-append-drop, ok, err,
}
use locals.Store.Token.{IsByte, encode_token, decode_token, decode_token-encode_token}
use locals.Store.Listing.{ListEntry, beyond, name_at, page}

-- The names grow strictly.
abbrev pub IsSorted : List ListEntry → Type 0
IsSorted [] = Unit
IsSorted (e ∷ es) = All (λ f. lt_text e.name f.name ≡ true) es × IsSorted es

-- A name that can stand in a listing: some bytes.
abbrev pub IsName : ListEntry → Type 0
IsName e = (beq e.name [] ≡ false) × All IsByte e.name

beyond_of_later :
    (after : Bytes) (es : List ListEntry)
    → All (λ f. lt_text after f.name ≡ true) es
    → beyond after es ≡ es
unfolding beyond
beyond_of_later after [] h = refl
beyond_of_later after (e ∷ es) (h, _) = rw h

-- The entries beyond the name of one of them are those that stand behind it.
beyond-last :
    (xs ys : List ListEntry) (e : ListEntry)
    → IsSorted (xs ++ (e ∷ ys))
    → beyond e.name (xs ++ (e ∷ ys)) ≡ ys
unfolding beyond
beyond-last [] ys e (h, _) = rw (lt_text_irrefl e.name) (beyond_of_later e.name ys h)
beyond-last (x ∷ xs) ys e (h, hs) =
    rw (lt_text_asymm x.name e.name (All-append_right _ xs (e ∷ ys) h).0) (beyond-last xs ys e hs)

-- The last entry of a full page.
take_last :
    (m : ℕ) (es : List ListEntry)
    → m < length es
    → (xs : List ListEntry) × (e : ListEntry) × (take (suc m) es ≡ xs ++ (e ∷ []))
      × (name_at m es ≡ e.name)
unfolding name_at
take_last m [] h = absurd (omega arith)
take_last zero (e ∷ es) h = ([], e, refl, refl)
take_last (suc m) (e ∷ es) h =
    let (xs, l, same, named) = take_last m es (omega arith) in
    (e ∷ xs, l, ap (λ (t : List ListEntry). e ∷ t) same, named)

-- What a client does with a page: where the page was cut it asks on from the token.
abbrev ask_on : List ListEntry × Bool × Bytes → (Bytes → List ListEntry) → List ListEntry
ask_on (shown, false, token) next = shown
ask_on (shown, true, token) next =
    shown ++ elim (decode_token token) [ ok name ↦ next name | err x ↦ [] ]

-- A client that asks for page after page, each from the token of the one before.
pub follow : ℕ → ℕ → Bytes → List ListEntry → List ListEntry
follow zero max_keys after es = []
follow (suc fuel) max_keys after es =
    ask_on (page max_keys after es) (λ name. follow fuel max_keys name es)

abbrev left_of : Bytes → List ListEntry → List ListEntry
left_of after es = if beq after [] then es else beyond after es

page_last :
    (m : ℕ) (after : Bytes) (es : List ListEntry)
    → ltb (suc m) (length (left_of after es)) ≡ false
    → page (suc m) after es ≡ (left_of after es, false, [])
unfolding page
page_last m after es h = rw h

page_full :
    (m : ℕ) (after : Bytes) (es : List ListEntry)
    → ltb (suc m) (length (left_of after es)) ≡ true
    → page (suc m) after es
      ≡ (take (suc m) (left_of after es), true, encode_token (name_at m (left_of after es)))
unfolding page
page_full m after es h = rw h (ground arith)

-- One page of the client's loop, for each outcome.
follow_last :
    (fuel m : ℕ) (after : Bytes) (es left : List ListEntry)
    → left_of after es ≡ left
    → ltb (suc m) (length left) ≡ false
    → follow (suc fuel) (suc m) after es ≡ left
unfolding follow
follow_last fuel m after es left e h =
    ap (λ p. ask_on p (λ name. follow fuel (suc m) name es))
      (page_last m after es (ap (λ l. ltb (suc m) (length l)) e ∙ h))
    ∙ e

follow_more :
    (fuel m : ℕ) (after name : Bytes) (es left : List ListEntry)
    → left_of after es ≡ left
    → ltb (suc m) (length left) ≡ true
    → decode_token (encode_token (name_at m left)) ≡ ok name
    → follow (suc fuel) (suc m) after es ≡ take (suc m) left ++ follow fuel (suc m) name es
unfolding follow
follow_more fuel m after name es left e h d =
    ap (λ p. ask_on p (λ name. follow fuel (suc m) name es))
      (page_full m after es (ap (λ l. ltb (suc m) (length l)) e ∙ h)
        ∙ ap (λ (l : List ListEntry). (take (suc m) l, true, encode_token (name_at m l))) e)
    ∙ rw d

-- From the name of the last entry shown, a listing goes on behind it.
resumed :
    (done rest : List ListEntry) (l : ListEntry)
    → IsSorted (done ++ (l ∷ rest))
    → All IsName (done ++ (l ∷ rest))
    → left_of l.name (done ++ (l ∷ rest)) ≡ rest
resumed done rest l s n =
    rw ((All-append_right IsName done (l ∷ rest) n).0.0) (beyond-last done rest l s)

follow_from :
    (fuel m : ℕ) (after : Bytes) (done left : List ListEntry)
    → IsSorted (done ++ left)
    → All IsName (done ++ left)
    → left_of after (done ++ left) ≡ left
    → length left < fuel
    → follow fuel (suc m) after (done ++ left) ≡ left
follow_from zero m after done left s n e h = absurd (omega arith)
follow_from (suc fuel) m after done left s n e h = elim (Bool-cases (ltb (suc m) (length left))) [
  | inl more ↦
      let (xs, l, shown, named) = take_last m left (ground arith) in
      let rest = drop (suc m) left in
      let left_parts : left ≡ (xs ++ (l ∷ [])) ++ rest =
        sym (take-append-drop (suc m) left) ∙ ap (λ (t : List ListEntry). t ++ rest) shown in
      let whole : done ++ left ≡ (done ++ xs) ++ (l ∷ rest) =
        ap (λ (t : List ListEntry). done ++ t) (left_parts ∙ append_assoc xs (l ∷ []) rest)
        ∙ sym (append_assoc done xs (l ∷ rest)) in
      let shape : done ++ left ≡ ((done ++ xs) ++ (l ∷ [])) ++ rest =
        whole ∙ sym (append_assoc (done ++ xs) (l ∷ []) rest) in
      let names = subst (All IsName) whole n in
      let behind = resumed (done ++ xs) rest l (subst IsSorted whole s) names in
      let token : decode_token (encode_token (name_at m left)) ≡ ok l.name = rw named (
        decode_token-encode_token l.name
          (All-append_right IsName (done ++ xs) (l ∷ rest) names).0.1) in
      follow_more fuel m after l.name (done ++ left) left e more token
      ∙ ap (λ (t : List ListEntry). take (suc m) left ++ t)
          (ap (follow fuel (suc m) l.name) shape
            ∙ follow_from fuel m l.name ((done ++ xs) ++ (l ∷ [])) rest (subst IsSorted shape s)
                (subst (All IsName) shape n) (ap (left_of l.name) (sym shape ∙ whole) ∙ behind)
                (omega (arith, length-drop (suc m) left, more_left more)))
      ∙ take-append-drop (suc m) left
  | inr short ↦ follow_last fuel m after (done ++ left) left e short
]
  where
    more_left : ltb (suc m) (length left) ≡ true → suc m < length left
    more_left h = ground arith

-- A client that follows the tokens from the start sees every entry of a sorted listing exactly
-- once and in order, whatever page size of at least one it asks for; one page more than there are
-- entries is enough.
pub follow_lem :
    (max_keys : ℕ) (es : List ListEntry)
    → 0 < max_keys
    → IsSorted es
    → All IsName es
    → follow (suc (length es)) max_keys [] es ≡ es
follow_lem zero es h s n = absurd (omega arith)
follow_lem (suc m) es h s n =
    follow_from (suc (length es)) m [] [] es s n (unfold beq in refl) (omega arith)

-- A page shows at most as many entries as were asked for.
pub length-page :
    (max_keys : ℕ) (after : Bytes) (es : List ListEntry)
    → length (page max_keys after es).0 ≤ max_keys
unfolding page
length-page max_keys after es =
    ground (arith, length-take max_keys es, length-take max_keys (beyond after es))
