-- ===== src/Memory/Tracking/Descent.antt =====
-- The two descents of tracking.rs, level by level.
use idos_nx.Base.{ℕ, zero, suc, ◌+◌, ◌≡◌, refl, sym, ◌∙◌, Option, none, some, arith, add32, ap}
use idos_nx.Base.Results.{Outcome, done}
use idos_nx.Memory.Tracking.Nodes.{
  Node, node, unallocated, allocated, Slots, slot_at, slot_set, blank, slot_at-blank,
}
use idos_nx.Memory.Tracking.{
  extract_index, with_value, add_below, visit_below, find_below, value_of,
}
use idos_nx.Memory.Tracking.Shape.{
  ShapedAt, same_path, count_below, Updated, slot_set-Updated, slot_set-ShapedAt, blank-ShapedAt,
  count_below-blank,
}

-- The count after one more reference.
abbrev pub bumped : Option ℕ → ℕ
bumped none = 1
bumped (some n) = add32 n 1

pub record Added (n level a : ℕ) (o : Option Node) : Type 0 where
  pub count : ℕ
  pub child : Node
  pub runs : add_below n level a o ≡ done (count, child)
  pub shaped : ShapedAt n (some child)
  pub is : count ≡ bumped (count_below n level a o)
  pub updated : Updated n level a (some count) o (some child)

allocated-Added :
    (n level a : ℕ) (v : Option ℕ) (s : Slots)
    → ShapedAt (suc n) (some (node v (allocated s)))
    → Added n (level + 1) a (slot_at s (extract_index a level))
    → Added (suc n) level a (some (node v (allocated s)))
unfolding add_below count_below find_below
allocated-Added n level a v s h ih = record {
  count = ih.count;
  child = node v (allocated (slot_set s (extract_index a level) (some ih.child)));
  runs = rw ih.runs;
  shaped = slot_set-ShapedAt n level a s (some ih.child) h.0 v h.1 ih.shaped;
  is = ih.is;
  updated = slot_set-Updated n level a s (some ih.child) h.0 v v (some ih.count) ih.updated;
}

-- A node with no array yet counts as one with the empty array.
blank-Added :
    (n level a : ℕ) (v : Option ℕ) (o : Option Node)
    → add_below (suc n) level a o ≡ add_below (suc n) level a (some (node v (allocated blank)))
    → ((b : ℕ) → count_below (suc n) level b o ≡ none)
    → Added (suc n) level a (some (node v (allocated blank)))
    → Added (suc n) level a o
unfolding Updated
blank-Added n level a v o same absent r = record {
  count = r.count;
  child = r.child;
  runs = same ∙ r.runs;
  shaped = r.shaped;
  is = r.is ∙ ap bumped (count_below-blank n level a v ∙ sym (absent a));
  updated = λ b. rw (absent b) (rw (count_below-blank n level b v) at (r.updated b));
}

pub add_below-Added : (n level a : ℕ) (o : Option Node) → ShapedAt n o → Added n level a o
unfolding add_below count_below find_below Updated same_path
add_below-Added zero level a none h = record {
  count = 1;
  child = with_value 1;
  runs = refl;
  shaped = (1, refl);
  is = refl;
  updated = λ b. refl;
}
add_below-Added zero level a (some (node none kids)) (c, e) = cc
add_below-Added zero level a (some (node (some c) kids)) h = record {
  count = add32 c 1;
  child = node (some (add32 c 1)) kids;
  runs = refl;
  shaped = (add32 c 1, refl);
  is = refl;
  updated = λ b. refl;
}
add_below-Added (suc n) level a none h =
    blank-Added n level a none none refl (λ b. refl)
      (allocated-Added n level a none blank (blank-ShapedAt n none) (
        add_below-Added n (level + 1) a (slot_at blank (extract_index a level))
          (rw (slot_at-blank (extract_index a level)) tt)))
add_below-Added (suc n) level a (some (node v unallocated)) h =
    blank-Added n level a v (some (node v unallocated)) refl (λ b. refl)
      (allocated-Added n level a v blank (blank-ShapedAt n v) (
        add_below-Added n (level + 1) a (slot_at blank (extract_index a level))
          (rw (slot_at-blank (extract_index a level)) tt)))
add_below-Added (suc n) level a (some (node v (allocated s))) h =
    allocated-Added n level a v s h
      (add_below-Added n (level + 1) a (slot_at s (extract_index a level)) (h.1 _))

-- What is done to a leaf, as a function of its count: the reply and the new count.
pub record LeafLaw (leaf : Option Node → Outcome (Option ℕ × Option Node))
    (reply new : Option ℕ → Option ℕ) : Type 0 where
  pub at :
      (o : Option Node)
      → ShapedAt 0 o
      → (o' : Option Node) × (leaf o ≡ done (reply (value_of o), o'))
        × ShapedAt 0 o'
        × (value_of o' ≡ new (value_of o))
  pub absent : (reply none ≡ none) × (new none ≡ none)

module _ {leaf : Option Node → Outcome (Option ℕ × Option Node)} {reply new : Option ℕ → Option ℕ}
    (law : LeafLaw leaf reply new) where
  pub record Visited (n level a : ℕ) (o : Option Node) : Type 0 where
    pub result : Option Node
    pub runs : visit_below leaf n level a o ≡ done (reply (count_below n level a o), result)
    pub shaped : ShapedAt n result
    pub updated : Updated n level a (new (count_below n level a o)) o result

  -- A path that ends early has no count, and nothing changes.
  absent-Visited :
      (n level a : ℕ) (o : Option Node)
      → ShapedAt n o
      → visit_below leaf n level a o ≡ done (none, o)
      → ((b : ℕ) → count_below n level b o ≡ none)
      → Visited n level a o
  unfolding Updated
  absent-Visited n level a o h runs absent = record {
    result = o;
    runs = runs ∙ ap (λ x. done (x, o)) (sym law.absent.0 ∙ ap reply (sym (absent a)));
    shaped = h;
    updated = λ b. ground (arith, absent b, absent a, law.absent.1);
  }

  pub visit_below-Visited : (n level a : ℕ) (o : Option Node) → ShapedAt n o → Visited n level a o
  unfolding visit_below count_below find_below Updated same_path
  visit_below-Visited zero level a o h =
      let (o', runs, shaped, new_count) = law.at o h in
      record { result = o'; runs = runs; shaped = shaped; updated = λ b. new_count }
  visit_below-Visited (suc n) level a none h =
      absent-Visited (suc n) level a none h refl (λ b. refl)
  visit_below-Visited (suc n) level a (some (node v unallocated)) h =
      absent-Visited (suc n) level a (some (node v unallocated)) h refl (λ b. refl)
  visit_below-Visited (suc n) level a (some (node v (allocated s))) h =
      let ih = visit_below-Visited n (level + 1) a (slot_at s (extract_index a level)) (h.1 _) in
      record {
        result = some (node v (allocated (slot_set s (extract_index a level) ih.result)));
        runs = rw ih.runs;
        shaped = slot_set-ShapedAt n level a s ih.result h.0 v h.1 ih.shaped;
        updated = slot_set-Updated n level a s ih.result h.0 v v _ ih.updated;
      }
