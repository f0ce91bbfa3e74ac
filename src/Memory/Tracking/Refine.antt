-- ===== src/Memory/Tracking/Refine.antt =====
-- The tree against an abstract map from page numbers to counts.
use idos_nx.Base.{
  ℕ, zero, suc, ◌+◌, ◌-◌, ◌%◌, ◌^◌, ◌<◌, ◌≡◌, refl, ◌∙◌, true, Option, none, some, List, [], ◌∷◌,
  arith, ltb, ◌==◌, if◌then◌else◌, add32, ◌>>>◌, ap, Bool-cases, inl, inr,
}
use idos_nx.Base.Results.{Outcome, done, ◌>>=◌}
use idos_nx.Memory.Address.{is_page_aligned}
use idos_nx.Memory.Tracking.Nodes.{Node, node, unallocated, allocated, slot_at}
use idos_nx.Memory.Tracking.{
  AddressTree, empty_tree, increment, decrement, value_of, is_some, visit_below, find_below,
  extract_index, add_reference, add_reference_if_exists, remove_reference, contains,
  get_reference_count,
}
use idos_nx.Memory.Tracking.Shape.{ShapedAt, same_path-page, count_below, Updated}
use idos_nx.Memory.Tracking.Descent.{bumped, add_below-Added, LeafLaw, visit_below-Visited}

-- One address of a page.
pub record IsPage (a : ℕ) : Type 0 where
  pub word : a < 2 ^ 32
  pub aligned : a % 4096 ≡ 0

abbrev pub Counts : Type 0
Counts = ℕ → Option ℕ

abbrev pub update : Counts → ℕ → Option ℕ → Counts
update m k v j = if k == j then v else m j

abbrev pub add_one : Option ℕ → Option ℕ
add_one none = none
add_one (some n) = some (add32 n 1)

abbrev pub drop_one : Option ℕ → Option ℕ
drop_one none = none
drop_one (some n) = some (n - 1)

abbrev pub remaining : Option ℕ → Option ℕ
remaining none = none
remaining (some n) = if ltb 1 n then some (n - 1) else none

-- The tree is well formed and holds the counts `m`.
pub record Represents (t : AddressTree) (m : Counts) : Type 0 where
  pub shaped : ShapedAt 4 t.root
  pub counts : (b : ℕ) → b < 2 ^ 32 → get_reference_count t b ≡ m (b >>> 12)

Updated-Represents :
    {t : AddressTree} {m : Counts} {a : ℕ} (w : Option ℕ) {root : Option Node}
    → Represents t m
    → IsPage a
    → ShapedAt 4 root
    → Updated 4 0 a w t.root root
    → Represents (record { root = root }) (update m (a >>> 12) w)
unfolding Updated count_below get_reference_count
Updated-Represents {t} {m} {a} w r p shaped u = record {
  shaped = shaped;
  counts = λ b h. rw (← same_path-page a b p.word h, ← r.counts b h) (u b);
}

aligned : (a : ℕ) → IsPage a → is_page_aligned a ≡ true
aligned a p = ground arith

-- The count that a descent finds is the map's.
count_below-Represents :
    {t : AddressTree} {m : Counts} (a : ℕ)
    → Represents t m
    → IsPage a
    → count_below 4 0 a t.root ≡ m (a >>> 12)
unfolding count_below get_reference_count
count_below-Represents a r p = r.counts a p.word

increment-Law : LeafLaw increment add_one add_one
increment-Law = record { at = at; absent = (refl, refl) }
  where
    at :
        (o : Option Node)
        → ShapedAt 0 o
        → (o' : Option Node) × (increment o ≡ done (add_one (value_of o), o'))
          × ShapedAt 0 o'
          × (value_of o' ≡ add_one (value_of o))
    at none h = (none, refl, tt, refl)
    at (some (node none kids)) (c, e) = cc
    at (some (node (some n) kids)) h =
        (some (node (some (add32 n 1)) kids), refl, (add32 n 1, refl), refl)

decrement-Law : LeafLaw decrement drop_one remaining
decrement-Law = record { at = at; absent = (refl, refl) }
  where
    at :
        (o : Option Node)
        → ShapedAt 0 o
        → (o' : Option Node) × (decrement o ≡ done (drop_one (value_of o), o'))
          × ShapedAt 0 o'
          × (value_of o' ≡ remaining (value_of o))
    at none h = (none, refl, tt, refl)
    at (some (node none kids)) (c, e) = cc
    at (some (node (some n) kids)) h = elim (Bool-cases (ltb 1 n)) [
      | inl more ↦ (some (node (some (n - 1)) kids), rw more, (n - 1, refl), rw more)
      | inr last ↦ let e : n - 1 ≡ 0 = ground arith in (none, rw (last, e), tt, rw last)
    ]

module _ {leaf : Option Node → Outcome (Option ℕ × Option Node)} {reply new : Option ℕ → Option ℕ}
    (law : LeafLaw leaf reply new) {t : AddressTree} {m : Counts} {a : ℕ} (r : Represents t m)
    (p : IsPage a) where
  visit_lem :
      (root : Option Node) × (visit_below leaf 4 0 a t.root ≡ done (reply (m (a >>> 12)), root))
      × Represents (record { root = root }) (update m (a >>> 12) (new (m (a >>> 12))))
  visit_lem =
      let v = visit_below-Visited law 4 0 a t.root r.shaped in
      let known = count_below-Represents a r p in
      (
        v.result,
        rw (← known) v.runs,
        rw (← known) (Updated-Represents (new (count_below 4 0 a t.root)) r p v.shaped v.updated),
      )

-- Each operation returns what the map says, does not panic, and changes the count of its own page
-- and of no other.
pub add_reference_lem :
    {t : AddressTree} {m : Counts} {a : ℕ}
    → Represents t m
    → IsPage a
    → (t' : AddressTree) × (add_reference t a ≡ done (bumped (m (a >>> 12)), t'))
      × Represents t' (update m (a >>> 12) (some (bumped (m (a >>> 12)))))
unfolding add_reference
add_reference_lem {t} {m} {a} r p =
    let d = add_below-Added 4 0 a t.root r.shaped in
    let known : d.count ≡ bumped (m (a >>> 12)) = d.is ∙ ap bumped (count_below-Represents a r p) in
    (
      record { root = some d.child },
      rw (aligned a p, d.runs, known),
      rw (← known) (Updated-Represents (some d.count) r p d.shaped d.updated),
    )

-- A caller's operations on page addresses, and their replies.
pub data Op : Type 0 where
  add add_if_exists remove count : ℕ → Op

abbrev pub address_of : Op → ℕ
address_of (add a) = a
address_of (add_if_exists a) = a
address_of (remove a) = a
address_of (count a) = a

pub step : AddressTree → Op → Outcome (Option ℕ × AddressTree)
unfolding add_reference add_reference_if_exists remove_reference get_reference_count
step t (add a) = do (n, t') ← add_reference t a; done (some n, t')
step t (add_if_exists a) = add_reference_if_exists t a
step t (remove a) = remove_reference t a
step t (count a) = done (get_reference_count t a, t)

unfoldable pub run : AddressTree → List Op → Outcome (List (Option ℕ))
unfolding step
run t [] = done []
run t (op ∷ ops) = do (reply, t') ← step t op; replies ← run t' ops; done (reply ∷ replies)

-- The same over the map, which cannot fail.
pub spec_step : Counts → Op → Option ℕ × Counts
spec_step m (add a) = let n = bumped (m (a >>> 12)) in (some n, update m (a >>> 12) (some n))
spec_step m (add_if_exists a) = let n = add_one (m (a >>> 12)) in (n, update m (a >>> 12) n)
spec_step m (remove a) = (drop_one (m (a >>> 12)), update m (a >>> 12) (remaining (m (a >>> 12))))
spec_step m (count a) = (m (a >>> 12), m)

pub spec_run : Counts → List Op → List (Option ℕ)
unfolding spec_step
spec_run m [] = []
spec_run m (op ∷ ops) = let (reply, m') = spec_step m op in reply ∷ spec_run m' ops

abbrev pub AllPages : List Op → Type 0
AllPages [] = Unit {0}
AllPages (op ∷ ops) = IsPage (address_of op) × AllPages ops

step_lem :
    {t : AddressTree} {m : Counts} (op : Op)
    → Represents t m
    → IsPage (address_of op)
    → (t' : AddressTree) × (step t op ≡ done ((spec_step m op).0, t'))
      × Represents t' (spec_step m op).1
unfolding step spec_step
step_lem (add a) r p = let (t', runs, r') = add_reference_lem r p in (t', rw runs, r')
step_lem (add_if_exists a) r p =
    let (root, runs, r') = visit_lem increment-Law r p in
    (record { root = root }, unfold add_reference_if_exists in rw (aligned a p, runs), r')
step_lem (remove a) r p =
    let (root, runs, r') = visit_lem decrement-Law r p in
    (record { root = root }, unfold remove_reference in rw runs, r')
step_lem {t} (count a) r p = (t, rw (r.counts a p.word), r)

-- From a tree that represents a map of counts, a sequence of operations on page addresses never
-- panics, and its replies are those of the same operations on the map.
pub run_refines :
    (ops : List Op) {t : AddressTree} {m : Counts}
    → Represents t m
    → AllPages ops
    → run t ops ≡ done (spec_run m ops)
unfolding run spec_run
run_refines [] r h = refl
run_refines (op ∷ ops) r (p, h) =
    let (t', runs, r') = step_lem op r p in rw runs (rw (run_refines ops r' h))

-- The empty tree represents the map without counts.
pub empty_tree-Represents : Represents empty_tree (λ k. none)
unfolding empty_tree get_reference_count
empty_tree-Represents = record { shaped = tt; counts = λ b h. refl }

find_below-ShapedAt :
    (n level b : ℕ) (o : Option Node) → ShapedAt n o → ShapedAt 0 (find_below n level b o)
unfolding find_below
find_below-ShapedAt zero level b o h = h
find_below-ShapedAt (suc n) level b none h = tt
find_below-ShapedAt (suc n) level b (some (node v unallocated)) h = tt
find_below-ShapedAt (suc n) level b (some (node v (allocated s))) h =
    find_below-ShapedAt n (level + 1) b (slot_at s (extract_index b level)) (h.1 _)

is_some-value_of : (o : Option Node) → ShapedAt 0 o → is_some o ≡ is_some (value_of o)
is_some-value_of none h = refl
is_some-value_of (some (node v kids)) (c, e) = rw e

-- In a tree that represents a map of counts, `contains` tells exactly whether the page of an address
-- has a count.
pub contains-eq-is_some :
    {t : AddressTree} {m : Counts} (a : ℕ)
    → Represents t m
    → a < 2 ^ 32
    → contains t a ≡ is_some (m (a >>> 12))
unfolding contains get_reference_count
contains-eq-is_some {t} a r h =
    is_some-value_of (find_below 4 0 a t.root) (find_below-ShapedAt 4 0 a t.root r.shaped)
    ∙ ap is_some (r.counts a h)
