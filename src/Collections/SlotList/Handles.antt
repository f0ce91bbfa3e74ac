-- ===== src/Collections/SlotList/Handles.antt =====
-- `HandleTable` of kernel/src/io/handle.rs: a slot list whose indexes are the handles.
use idos_nx.Base.{ℕ, ◌≡◌, ◌≢◌, ◌∙◌, Option, some, List, [], ◌∷◌, arith}
use idos_nx.Collections.SlotList
use idos_nx.Collections.SlotList.{SlotList}
use idos_nx.Collections.SlotList.Laws.{insert-Inserted, remove_lem, replace_lem}

pub record HandleTable (T : Type 0) : Type 0 where
  pub inner : SlotList T

module _ {T : Type 0} where
  pub new : HandleTable T
  new = record { inner = record { slots = [] } }

  pub insert : HandleTable T → T → ℕ × HandleTable T
  insert t value =
      let (index, inner) = SlotList.insert t.inner value in (index, record { inner = inner })

  unfoldable pub get : HandleTable T → ℕ → Option T
  get t handle = SlotList.get t.inner handle

  pub remove : HandleTable T → ℕ → Option T × HandleTable T
  remove t handle =
      let (value, inner) = SlotList.remove t.inner handle in (value, record { inner = inner })

  pub replace : HandleTable T → ℕ → T → Option T × HandleTable T
  replace t handle value =
      let (old, inner) = SlotList.replace t.inner handle value in (old, record { inner = inner })

pub data TableOp (T : Type 0) : Type 0 where
  insert_op : T → TableOp T
  remove_op : ℕ → TableOp T
  replace_op : ℕ → T → TableOp T

module _ {T : Type 0} where
  pub apply : HandleTable T → TableOp T → HandleTable T
  unfolding insert remove replace
  apply t (insert_op v) = (insert t v).1
  apply t (remove_op h) = (remove t h).1
  apply t (replace_op h v) = (replace t h v).1

  pub apply_all : HandleTable T → List (TableOp T) → HandleTable T
  unfolding apply
  apply_all t [] = t
  apply_all t (op ∷ ops) = apply_all (apply t op) ops

  -- No operation removes or replaces the handle.
  abbrev pub Avoids : ℕ → List (TableOp T) → Type 0
  Avoids h [] = Unit {0}
  Avoids h (insert_op v ∷ ops) = Avoids h ops
  Avoids h (remove_op k ∷ ops) = (k ≢ h) × Avoids h ops
  Avoids h (replace_op k v ∷ ops) = (k ≢ h) × Avoids h ops

  get-insert :
      (t : HandleTable T) (v x : T) (h : ℕ) → get t h ≡ some x → get (insert t v).1 h ≡ some x
  unfolding get insert
  get-insert t v x h e =
      let i = insert-Inserted t.inner v in ground (arith, i.was_empty, i.contents h)

  get-remove : (t : HandleTable T) (h k : ℕ) → k ≢ h → get (remove t k).1 h ≡ get t h
  unfolding get remove
  get-remove t h k ne = ground (arith, (remove_lem t.inner k h).1)

  get-replace : (t : HandleTable T) (v : T) (h k : ℕ) → k ≢ h → get (replace t k v).1 h ≡ get t h
  unfolding get replace
  get-replace t v h k ne = ground (arith, (replace_lem t.inner k h v).1)

  -- An open handle keeps its object through any operations that do not remove or replace that very
  -- handle: no insertion hands it out again.
  pub get-apply_all :
      (ops : List (TableOp T)) (t : HandleTable T) (h : ℕ) (x : T)
      → get t h ≡ some x
      → Avoids h ops
      → get (apply_all t ops) h ≡ some x
  unfolding apply_all
  get-apply_all [] t h x e a = e
  get-apply_all (insert_op v ∷ ops) t h x e a =
      get-apply_all ops (insert t v).1 h x (get-insert t v x h e) a
  get-apply_all (remove_op k ∷ ops) t h x e (ne, a) =
      get-apply_all ops (remove t k).1 h x (get-remove t h k ne ∙ e) a
  get-apply_all (replace_op k v ∷ ops) t h x e (ne, a) =
      get-apply_all ops (replace t k v).1 h x (get-replace t v h k ne ∙ e) a
