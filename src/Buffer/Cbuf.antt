-- ===== src/Buffer/Cbuf.antt =====
-- The ring of bytes `cbuf` of the Arduino core, which the buffer uses and does not implement: its
-- operations, and what is documented of them, by the bytes that a ring holds.
use espasync_tcp.Common.{ℕ, ◌+◌, ◌<◌, ◌≡◌, Bool, List, ◌∷◌, ◌++◌, ◌==◌, min, length, take, drop}

-- `write`, `read` and the one-byte `read` (`pop`) return what the call returns or stores, and the
-- ring after it.
pub record Cbuf (B : Type 0) : Type 0 where
  pub make : ℕ → B
  pub available : B → ℕ
  pub room : B → ℕ
  pub is_empty : B → Bool
  pub is_full : B → Bool
  pub write : List ℕ → B → ℕ × B
  pub peek : ℕ → B → List ℕ
  pub read : ℕ → B → List ℕ × B
  pub pop : B → ℕ × B
  pub remove : ℕ → B → B
  pub resize : ℕ → B → B
  pub resize_add : ℕ → B → B

-- A ring is a queue: bytes are written at its end, as many as there is room for, and are read from
-- its front; what is removed is room again. A new ring has room, unless it is made for a single
-- byte. Resizing never loses a byte; it may fail, and then changes nothing.
pub record IsQueue {B : Type 0} (c : Cbuf B) : Type 0 where
  pub contents : B → List ℕ
  pub make_empty : (n : ℕ) → length (contents (c.make n)) ≡ 0
  pub make_room : (n : ℕ) → 1 < n → 0 < c.room (c.make n)
  pub available_length : (b : B) → c.available b ≡ length (contents b)
  pub empty_length : (b : B) → c.is_empty b ≡ (length (contents b) == 0)
  pub full_room : (b : B) → c.is_full b ≡ (c.room b == 0)
  pub write_count : (bytes : List ℕ) (b : B) → (c.write bytes b).0 ≡ min (c.room b) (length bytes)
  pub write_contents :
      (bytes : List ℕ) (b : B)
      → contents (c.write bytes b).1 ≡ contents b ++ take (c.write bytes b).0 bytes
  pub write_room :
      (bytes : List ℕ) (b : B) → c.room (c.write bytes b).1 + (c.write bytes b).0 ≡ c.room b
  pub peek_front : (n : ℕ) (b : B) → c.peek n b ≡ take n (contents b)
  pub read_front : (n : ℕ) (b : B) → (c.read n b).0 ≡ take n (contents b)
  pub read_rest : (n : ℕ) (b : B) → contents (c.read n b).1 ≡ drop n (contents b)
  pub pop_front : (b : B) (x : ℕ) (xs : List ℕ) → contents b ≡ x ∷ xs → (c.pop b).0 ≡ x
  pub pop_rest : (b : B) (x : ℕ) (xs : List ℕ) → contents b ≡ x ∷ xs → contents (c.pop b).1 ≡ xs
  pub remove_rest : (n : ℕ) (b : B) → contents (c.remove n b) ≡ drop n (contents b)
  pub remove_cap :
      (n : ℕ) (b : B)
      → c.room (c.remove n b) + length (contents (c.remove n b)) ≡ c.room b + length (contents b)
  pub resize_keeps : (n : ℕ) (b : B) → contents (c.resize n b) ≡ contents b
  pub resize_add_keeps : (n : ℕ) (b : B) → contents (c.resize_add n b) ≡ contents b
