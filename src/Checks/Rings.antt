-- ===== src/Checks/Rings.antt =====
-- A ring that is a list, and a heap, for the examples of the buffer.
use espasync_tcp.Common.{
  suc, ℕ, ◌+◌, ◌-◌, ◌≡◌, refl, true, false, List, [], ◌∷◌, ◌++◌, arith, ◌==◌, min, length, take,
  drop, length-drop,
}
use espasync_tcp.Buffer.Cbuf.{Cbuf, IsQueue}
use espasync_tcp.Buffer.State.{Heap}

pub record Ring : Type 0 where
  pub items : List ℕ
  pub free : ℕ

-- Resizing makes no ring smaller.
abbrev pub ring_ops : Cbuf Ring
ring_ops = record {
  make = λ n. record { items = []; free = n };
  available = λ r. length r.items;
  room = λ r. r.free;
  is_empty = λ r. length r.items == 0;
  is_full = λ r. r.free == 0;
  write = λ bytes r.
      let k = min r.free (length bytes) in
      (k, record { items = r.items ++ take k bytes; free = r.free - k });
  peek = λ n r. take n r.items;
  read = λ n r. (take n r.items, record { items = drop n r.items; free = r.free + n });
  pop = λ r. elim r.items [ [] ↦ (0, r) | x ∷ xs ↦ (x, record { items = xs; free = suc r.free }) ];
  remove = λ n r. record { items = drop n r.items; free = r.free + min n (length r.items) };
  resize = λ n r. r;
  resize_add = λ n r. record r { free = r.free + n };
}

pub ring_ops-pop_front :
    (r : Ring) (x : ℕ) (xs : List ℕ) → r.items ≡ x ∷ xs → (ring_ops.pop r).0 ≡ x
ring_ops-pop_front r x xs h = ground (arith, h)

pub ring_ops-pop_rest :
    (r : Ring) (x : ℕ) (xs : List ℕ) → r.items ≡ x ∷ xs → (ring_ops.pop r).1.items ≡ xs
ring_ops-pop_rest r x xs h = ground (arith, h)

abbrev pub ring_ops-IsQueue : IsQueue ring_ops
ring_ops-IsQueue = record {
  contents = λ r. r.items;
  make_empty = λ n. refl;
  make_room = λ n l. omega arith;
  available_length = λ r. refl;
  empty_length = λ r. refl;
  full_room = λ r. refl;
  write_count = λ bytes r. refl;
  write_contents = λ bytes r. refl;
  write_room = λ bytes r. omega arith;
  peek_front = λ n r. refl;
  read_front = λ n r. refl;
  read_rest = λ n r. refl;
  pop_front = ring_ops-pop_front;
  pop_rest = ring_ops-pop_rest;
  remove_rest = λ n r. refl;
  remove_cap = λ n r. omega (arith, length-drop n r.items);
  resize_keeps = λ n r. refl;
  resize_add_keeps = λ n r. refl;
}

-- Memory can always be had, and holds zeros behind a packet.
abbrev pub heap : Heap
heap = record { low = λ _. false; gives = λ _. true; behind = λ _. 0 }
