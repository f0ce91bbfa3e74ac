-- ===== src/Task/Mapping/Nearest.antt =====
-- `find_nearest_free_space` finds the nearest place there is.
use idos_nx.Base.{
  ℕ, ◌+◌, ◌-◌, ◌%◌, ◌≤◌, ◌<◌, ◌≡◌, refl, ◌⊎◌, inl, inr, true, Bool-cases, ◌&&◌, ◌||◌, Option, none,
  some, [], ◌∷◌, ltb, leb, ◌==◌, word_count, arith,
}
use idos_nx.Memory.Address.{address_sub, page_size}
use idos_nx.Task.Mapping.{Regions}
use idos_nx.Task.Mapping.Paged.{
  page_end, Paged, Paged-le, next_page_barrier-page_end, Apart, Apart-before, Nearest,
}
use idos_nx.Task.Mapping.Space.{
  place_in, distance, improve, consider, nearest_from, find_nearest_free_space,
}

module _ (U hint size : ℕ) where
  -- A place at a page start between two addresses.
  abbrev InGap : ℕ → ℕ → ℕ → Type 0
  InGap lo hi q = (lo ≤ q) × (q + size ≤ hi) × (q % page_size ≡ 0)

  -- The search's state: the nearest of the places `P`, or none if there are none.
  abbrev State : (ℕ → Type 0) → Option ℕ × ℕ → Type 0
  State P (none, d) = (d ≡ word_count - 1) × ((q : ℕ) → P q → ⊥)
  State P (some p, d) = (d ≡ distance hint p) × P p × ((q : ℕ) → P q → d ≤ distance hint q)

  module _ (hs : size % page_size ≡ 0) (hp : 0 < size) (hh : hint + size < word_count)
      (ha : hint % page_size ≡ 0) where
    place_in-InGap :
        (lo hi : ℕ)
        → lo % page_size ≡ 0
        → hi % page_size ≡ 0
        → lo + size ≤ hi
        → InGap lo hi (place_in hint size lo hi)
    place_in-InGap lo hi hl he room = (ground arith, ground arith, ground arith)

    distance-place_in :
        (lo hi q : ℕ)
        → lo % page_size ≡ 0
        → hi % page_size ≡ 0
        → InGap lo hi q
        → distance hint (place_in hint size lo hi) ≤ distance hint q
    distance-place_in lo hi q hl he (a, b, c) = ground arith

    keep-State :
        (P Q : ℕ → Type 0) (s : Option ℕ × ℕ)
        → ((q : ℕ) → Q q → ⊥)
        → State P s
        → State (λ q. P q ⊎ Q q) s
    keep-State P Q (none, d) none_there (e, f) =
        (e, λ q h. elim h [ inl a ↦ f q a | inr b ↦ none_there q b ])
    keep-State P Q (some p, d) none_there (e, a, f) =
        (e, inl a, λ q h. elim h [ inl a ↦ f q a | inr b ↦ absurd (none_there q b) ])

    improve-State :
        (P Q : ℕ → Type 0) (s : Option ℕ × ℕ) (place : ℕ)
        → Q place
        → ((q : ℕ) → Q q → distance hint place ≤ distance hint q)
        → distance hint place < word_count - 1
        → State P s
        → State (λ q. P q ⊎ Q q) (improve hint place s)
    unfolding improve
    improve-State P Q (none, d) place there near small (e, f) =
        let better : ltb (distance hint place) d ≡ true = ground arith in
        rw better (refl, inr there, λ q h. elim h [ inl a ↦ absurd (f q a) | inr b ↦ near q b ])
    improve-State P Q (some p, d) place there near small (e, a, f) =
        elim (Bool-cases
          (ltb (distance hint place) d || (distance hint place == d && leb hint place))) [
            | inl better ↦
                let closer : distance hint place ≤ d = ground arith in
                rw better (
                  refl,
                  inr there,
                  λ q h. elim h [ inl b ↦ omega (arith, f q b, closer) | inr b ↦ near q b ],
                )
            | inr worse ↦
                let farther : d ≤ distance hint place = ground arith in
                rw worse (
                  e,
                  inl a,
                  λ q h. elim h [ inl b ↦ f q b | inr b ↦ omega (arith, near q b, farther) ],
                )
          ]

    -- One gap more.
    consider-State :
        (P : ℕ → Type 0) (s : Option ℕ × ℕ) (lo hi : ℕ)
        → lo % page_size ≡ 0
        → hi % page_size ≡ 0
        → hi < word_count - 1
        → State P s
        → State (λ q. P q ⊎ InGap lo hi q) (consider hint size lo hi s)
    unfolding consider
    consider-State P s lo hi hl he small st =
        elim (Bool-cases (ltb lo hi && leb size (address_sub hi lo))) [
          | inl fits ↦
              let room : lo + size ≤ hi = ground arith in
              let there = place_in-InGap lo hi hl he room in
              rw fits (
                improve-State P (InGap lo hi) s (place_in hint size lo hi) there
                  (λ q g. distance-place_in lo hi q hl he g) (ground (arith, there.0, there.1)) st)
          | inr full ↦ rw full (keep-State P (InGap lo hi) s (λ q (a, b, c). ground arith) st)
        ]

    State-map :
        (P Q : ℕ → Type 0) (s : Option ℕ × ℕ)
        → ((q : ℕ) → P q → Q q)
        → ((q : ℕ) → Q q → P q)
        → State P s
        → State Q s
    State-map P Q (none, d) to back (e, f) = (e, λ q h. f q (back q h))
    State-map P Q (some p, d) to back (e, a, f) = (e, to p a, λ q h. f q (back q h))

    -- A place in one of the gaps from an address on.
    abbrev Room : ℕ → Regions → ℕ → Type 0
    Room lo [] q = InGap lo U q
    Room lo (r ∷ rest) q = InGap lo r.address q ⊎ Room (page_end r) rest q

    nearest_from-State :
        (P : ℕ → Type 0) (m : Regions) (lo : ℕ) (s : Option ℕ × ℕ)
        → U < word_count - 1
        → U % page_size ≡ 0
        → lo % page_size ≡ 0
        → Paged lo U m
        → State P s
        → State (λ q. P q ⊎ Room lo m q) (nearest_from U hint size m lo s)
    unfolding nearest_from
    nearest_from-State P [] lo s small hu hl h st = consider-State P s lo U hl hu small st
    nearest_from-State P (r ∷ rest) lo s small hu hl (a, b, c, h) st =
        rw (next_page_barrier-page_end lo U r rest (a, b, c, h) small) (
          State-map (λ q. (P q ⊎ InGap lo r.address q) ⊎ Room (page_end r) rest q)
            (λ q. P q ⊎ (InGap lo r.address q ⊎ Room (page_end r) rest q))
            (nearest_from U hint size rest (page_end r) (consider hint size lo r.address s))
            (λ q g. elim g [
              | inl (inl x) ↦ inl x
              | inl (inr x) ↦ inr (inl x)
              | inr x ↦ inr (inr x)
            ])
            (λ q g. elim g [
              | inl x ↦ inl (inl x)
              | inr (inl x) ↦ inl (inr x)
              | inr (inr x) ↦ inr x
            ])
            (nearest_from-State (λ q. P q ⊎ InGap lo r.address q) rest (page_end r)
              (consider hint size lo r.address s) small hu (omega arith) h
              (consider-State P s lo r.address hl c (omega (arith, Paged-le (page_end r) U rest h))
                st)))

    Room-Apart :
        (m : Regions) (lo q : ℕ) → Paged lo U m → Room lo m q → InGap lo U q × Apart m q size
    Room-Apart [] lo q h g = (g, tt)
    Room-Apart (r ∷ rest) lo q (a, b, c, h) (inl (x, y, z)) = (
      (x, omega (arith, Paged-le (page_end r) U rest h), z),
      (inl y, Apart-before (page_end r) U q size rest h (omega arith)),
    )
    Room-Apart (r ∷ rest) lo q (a, b, c, h) (inr g) =
        let ((x, y, z), apart) = Room-Apart rest (page_end r) q h g in
        ((omega arith, y, z), (inr (omega arith), apart))

    Apart-Room :
        (m : Regions) (lo q : ℕ) → Paged lo U m → InGap lo U q → Apart m q size → Room lo m q
    Apart-Room [] lo q h g apart = g
    Apart-Room (r ∷ rest) lo q (a, b, c, h) (x, y, z) (inl before, apart) = inl (x, before, z)
    Apart-Room (r ∷ rest) lo q (a, b, c, h) (x, y, z) (inr after, apart) =
        inr (Apart-Room rest (page_end r) q h (omega arith, y, z) apart)

    State-Nearest :
        (m : Regions) (s : Option ℕ × ℕ)
        → Paged 0x1000 U m
        → State (λ q. ⊥ ⊎ Room 0x1000 m q) s
        → Nearest U m hint size s.0
    State-Nearest m (none, d) h (e, f) =
        λ q (a, b, c, apart). f q (inr (Apart-Room m 0x1000 q h (a, b, c) apart))
    State-Nearest m (some p, d) h (e, inl x, f) = elim x [ ]
    State-Nearest m (some p, d) h (e, inr room, f) =
        let ((a, b, c), apart) = Room-Apart m 0x1000 p h room in
        (
          (a, b, c, apart),
          λ q (x, y, z, other).
              omega (arith, e, f q (inr (Apart-Room m 0x1000 q h (x, y, z) other))),
        )

-- In a well-formed map, `find_nearest_free_space` returns a page start whose range is free, above
-- the null page and below the bound, and no such place is nearer to the hint; it returns none only
-- if there is no such place. The size is a positive multiple of the page size, the hint and the bound
-- are page starts, and the range at the hint does not wrap.
pub find_nearest_free_space-Nearest :
    (U hint size : ℕ) (m : Regions)
    → size % page_size ≡ 0
    → 0 < size
    → hint + size < word_count
    → hint % page_size ≡ 0
    → U % page_size ≡ 0
    → U < word_count - 1
    → Paged 0x1000 U m
    → Nearest U m hint size (find_nearest_free_space U m hint size)
unfolding find_nearest_free_space
find_nearest_free_space-Nearest U hint size m hs hp hh ha hu small h =
    State-Nearest U hint size hs hp hh ha m
      (nearest_from U hint size m 0x1000 (none, word_count - 1)) h
      (nearest_from-State U hint size hs hp hh ha (λ q. ⊥) m 0x1000 (none, word_count - 1) small hu
        refl h (refl, λ q x. x))
