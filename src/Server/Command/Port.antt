-- ===== src/Server/Command/Port.antt =====
-- The port of a listen address (cmd/locals3/main.go, `portOf`).
use locals.Base.{
  ℕ, zero, suc, ◌≡◌, ◌⊎◌, refl, sym, ap, subst, ◌∙◌, false, [], ◌∷◌, ◌++◌, none, some, Option,
  Option-cases, arith, Bytes, Bool-cases, inl, inr, Lacks, contains_byte, ◌==◌, length, drop, take,
  take-append-drop, get_elem?,
}
use locals.Server.Command.{from_last_colon, port_of}

-- What stands behind a place in a string.
drop_at : (s : Bytes) (i c : ℕ) → get_elem? s i ≡ some c → drop i s ≡ c ∷ drop (suc i) s
drop_at [] i c h = absurd cc
drop_at (d ∷ s) zero c h = ap (λ (x : ℕ). x ∷ s) cc
drop_at (d ∷ s) (suc i) c h = drop_at s i c h

drop_past : (s : Bytes) (i : ℕ) → get_elem? s i ≡ none → drop i s ≡ []
drop_past [] zero h = refl
drop_past [] (suc i) h = refl
drop_past (d ∷ s) zero h = absurd cc
drop_past (d ∷ s) (suc i) h = drop_past s i h

empty-Lacks : Lacks b':' []
unfolding contains_byte
empty-Lacks = refl

Lacks-more : (c : ℕ) (s : Bytes) → (c == b':') ≡ false → Lacks b':' s → Lacks b':' (c ∷ s)
unfolding contains_byte
Lacks-more c s other h = ground arith

drop-all : (s : Bytes) → drop (length s) s ≡ []
drop-all [] = refl
drop-all (c ∷ s) = drop-all s

-- What the loop may find: nothing, and no colon is there, or what starts with the last one.
abbrev pub Finds : Bytes → Option Bytes → Type 0
Finds addr found =
    ((found ≡ none) × Lacks b':' addr)
    ⊎ ((host : Bytes) × (port : Bytes) × (found ≡ some (b':' ∷ port))
        × (addr ≡ host ++ (b':' ∷ port))
        × Lacks b':' port)

-- Where no colon stands from `i` on.
from_last_colon-Finds :
    (i : ℕ) (addr : Bytes) → Lacks b':' (drop i addr) → Finds addr (from_last_colon i addr)
unfolding from_last_colon
from_last_colon-Finds zero addr h = inl (refl, h)
from_last_colon-Finds (suc i) addr h = elim (Option-cases (get_elem? addr i)) [
  | inl past ↦
      subst (Finds addr) (rw (from_last_colon, past) refl)
        (from_last_colon-Finds i addr (rw (drop_past addr i past) empty-Lacks))
  | inr (c, there) ↦ elim (Bool-cases (c == b':')) [
    | inl colon ↦
        let is_colon : c ≡ b':' = ground arith in
        let tail : drop i addr ≡ b':' ∷ drop (suc i) addr =
          drop_at addr i c there ∙ ap (λ (x : ℕ). x ∷ drop (suc i) addr) is_colon in
        inr (
          take i addr,
          drop (suc i) addr,
          rw (from_last_colon, there, colon) (ap some tail),
          sym (take-append-drop i addr) ∙ ap (λ (t : Bytes). take i addr ++ t) tail,
          h,
        )
    | inr other ↦ subst (Finds addr) (rw (from_last_colon, there, other) refl) (
        from_last_colon-Finds i addr
          (rw (drop_at addr i c there) (Lacks-more c (drop (suc i) addr) other h)))
  ]
]

-- The port that is printed stands behind the last colon of the address, with that colon; the whole
-- address is one, behind a colon, where it has none.
pub port_of_lem :
    (addr : Bytes)
    → ((port_of addr ≡ b':' ∷ addr) × Lacks b':' addr)
      ⊎ ((host : Bytes) × (port : Bytes) × (port_of addr ≡ b':' ∷ port)
          × (addr ≡ host ++ (b':' ∷ port))
          × Lacks b':' port)
unfolding port_of
port_of_lem addr =
    elim (from_last_colon-Finds (length addr) addr (rw (drop-all addr) empty-Lacks)) [
      | inl (none_there, lacks) ↦ inl (rw (port_of, none_there) refl, lacks)
      | inr (host, port, found, shape, lacks) ↦
          inr (host, port, rw (port_of, found) refl, shape, lacks)
    ]
