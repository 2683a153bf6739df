-- ===== src/Face/Queue.antt =====
-- A ring behaves as the queue of the bytes that it holds.
use psicose.Prelude.{
  ℕ, zero, suc, ◌+◌, ◌-◌, ◌%◌, ◌≤◌, ◌<◌, ◌≡◌, refl, ap, ap₂, sym, ◌∙◌, ◌⊎◌, inl, inr, List, Bool,
  [], ◌∷◌, ◌++◌, true, false, Option, none, some, ltb, ◌==◌, if◌then◌else◌, arith, length, get_or,
  set, length-set, get_or-set_self, get_or-set_ne, Bool-cases,
}
use mathlib.Core.List.{append-nil, append_assoc}
use psicose.Protocol.Bytes.{FrameBytes, frame_len, get_byte, to_list}
use psicose.Face.Ring.{Ring, ring_len, new, pop, push_byte, push_bytes, push_frame}

-- The indices are inside, and the tail stands `len` places behind the head.
pub record IsRing (r : Ring) : Type 0 where
  pub storage : length r.buf ≡ ring_len
  pub head_in : r.head < ring_len
  pub len_in : r.len ≤ ring_len
  pub tail_at : r.tail ≡ (r.head + r.len) % ring_len

-- The `n` bytes from index `h` on, going round at the end.
abbrev pub window : List ℕ → ℕ → ℕ → List ℕ
window buf h zero = []
window buf h (suc n) = get_or buf h 0 ∷ window buf ((h + 1) % ring_len) n

abbrev pub contents : Ring → List ℕ
contents r = window r.buf r.head r.len

pub length-contents : (buf : List ℕ) (h n : ℕ) → length (window buf h n) ≡ n
length-contents buf h zero = refl
length-contents buf h (suc n) = ap suc (length-contents buf ((h + 1) % ring_len) n)

-- A write just past a window extends it by that byte.
window-set :
    (buf : List ℕ) (b n h i : ℕ)
    → length buf ≡ ring_len
    → h < ring_len
    → n < ring_len
    → i ≡ (h + n) % ring_len
    → window (set buf i b) h (suc n) ≡ window buf h n ++ b ∷ []
window-set buf b zero h i size inside lt at =
    let here : i ≡ h = omega arith in
    ap (λ x. x ∷ []) (rw here (get_or-set_self buf h b 0 (omega arith)))
window-set buf b (suc n) h i size inside lt at =
    ap₂ (λ x xs. x ∷ xs) (get_or-set_ne buf i h b 0 (omega arith))
      (window-set buf b n ((h + 1) % ring_len) i size (omega arith) (omega arith) (omega arith))

push_byte-refines :
    (r : Ring) (b : ℕ)
    → IsRing r
    → r.len < ring_len
    → IsRing (push_byte r b) × (contents (push_byte r b) ≡ contents r ++ b ∷ [])
unfolding push_byte
push_byte-refines r b v lt =
    let next : r.len + 1 ≡ suc r.len = omega arith in
    (
      record {
        storage = length-set r.buf r.tail b ∙ v.storage;
        head_in = v.head_in;
        len_in = omega arith;
        tail_at = omega (arith, v.tail_at);
      },
      rw next (window-set r.buf b r.len r.head r.tail v.storage v.head_in lt v.tail_at),
    )

-- The `n` bytes of a frame from index `i` on.
bytes_from : ℕ → ℕ → FrameBytes → List ℕ
bytes_from zero i w = []
bytes_from (suc n) i w = get_byte w i ∷ bytes_from n (i + 1) w

push_bytes-refines :
    (n i : ℕ) (r : Ring) (w : FrameBytes)
    → IsRing r
    → r.len + n ≤ ring_len
    → IsRing (push_bytes n i r w) × (contents (push_bytes n i r w) ≡ contents r ++ bytes_from n i w)
unfolding push_bytes bytes_from
push_bytes-refines zero i r w v room = (v, sym (append-nil (contents r)))
push_bytes-refines (suc n) i r w v room =
    let (v', one) = push_byte-refines r (get_byte w i) v (omega arith) in
    let (v'', more) =
      push_bytes-refines n (i + 1) (push_byte r (get_byte w i)) w v'
        (unfold push_byte in omega arith) in
    (
      v'',
      more
          ∙ ap (λ xs. xs ++ bytes_from n (i + 1) w) one
          ∙ append_assoc (contents r) (get_byte w i ∷ []) (bytes_from n (i + 1) w),
    )

-- A queue of at most 64 bytes that takes whole frames.
unfoldable pub take_byte : List ℕ → List ℕ × Option ℕ
take_byte [] = ([], none)
take_byte (b ∷ queue) = (queue, some b)

unfoldable pub put_frame : List ℕ → FrameBytes → List ℕ × Bool
put_frame queue w =
    if ltb (ring_len - frame_len) (length queue) then (queue, false) else (queue ++ to_list w, true)

pub push_frame-refines :
    (r : Ring) (w : FrameBytes)
    → IsRing r
    → IsRing (push_frame r w).0
      × ((contents (push_frame r w).0, (push_frame r w).1) ≡ put_frame (contents r) w)
unfolding push_frame put_frame bytes_from get_byte to_list
push_frame-refines r w v = elim (Bool-cases (ltb (ring_len - frame_len) r.len)) [
  | inl full ↦ rw (length-contents r.buf r.head r.len, full) (v, refl)
  | inr room ↦
      let (v', all) = push_bytes-refines frame_len 0 r w v (ground arith) in
      rw (length-contents r.buf r.head r.len, room) (v', ap (λ xs. (xs, true)) all)
]

-- A frame goes in whole, or nothing changes.
pub push_frame-cases :
    (r : Ring) (w : FrameBytes)
    → IsRing r
    → (((push_frame r w).1 ≡ true)
        × IsRing (push_frame r w).0
        × (contents (push_frame r w).0 ≡ contents r ++ to_list w))
      ⊎ (push_frame r w ≡ (r, false))
unfolding push_frame bytes_from get_byte to_list
push_frame-cases r w v = elim (Bool-cases (ltb (ring_len - frame_len) r.len)) [
  | inl full ↦ inr (rw full refl)
  | inr room ↦
      let (v', all) = push_bytes-refines frame_len 0 r w v (ground arith) in
      inl (rw room (refl, v', all))
]

-- `pop` by the number of bytes that the ring holds.
pop_of :
    (buf : List ℕ) (h t n : ℕ)
    → let r : Ring = record { buf = buf; head = h; tail = t; len = n } in
      IsRing r → IsRing (pop r).0 × ((contents (pop r).0, (pop r).1) ≡ take_byte (contents r))
unfolding pop take_byte
pop_of buf h t zero v = (v, refl)
pop_of buf h t (suc n) v =
    let left : suc n - 1 ≡ n = omega arith in
    let holds : (suc n == 0) ≡ false = ground arith in
    rw holds (
      rw left (
        record {
          storage = v.storage;
          head_in = omega arith;
          len_in = omega (arith, v.len_in);
          tail_at = omega (arith, v.tail_at, v.head_in);
        },
        refl,
      ))

pub pop-refines :
    (r : Ring)
    → IsRing r
    → IsRing (pop r).0 × ((contents (pop r).0, (pop r).1) ≡ take_byte (contents r))
pop-refines r v = pop_of r.buf r.head r.tail r.len v

pub new-IsRing : IsRing new
unfolding new
new-IsRing = record { storage = refl; head_in = omega arith; len_in = omega arith; tail_at = refl }

-- The calls that an end of a face makes of its ring, and their answers.
pub data Op : Type 0 where
  takes : Op
  stores : FrameBytes → Op

pub data Reply : Type 0 where
  took : Option ℕ → Reply
  stored : Bool → Reply

unfoldable pub run : Ring → List Op → List Reply
run r [] = []
run r (takes ∷ ops) = let (r', out) = pop r in took out ∷ run r' ops
run r (stores w ∷ ops) = let (r', fits) = push_frame r w in stored fits ∷ run r' ops

unfoldable pub run_queue : List ℕ → List Op → List Reply
run_queue queue [] = []
run_queue queue (takes ∷ ops) = let (q, out) = take_byte queue in took out ∷ run_queue q ops
run_queue queue (stores w ∷ ops) =
    let (q, fits) = put_frame queue w in stored fits ∷ run_queue q ops

-- No sequence of pops and frame pushes tells a ring from the queue of its contents, which takes a
-- frame whole where four places are free and otherwise not at all.
pub run-refines : (ops : List Op) (r : Ring) → IsRing r → run r ops ≡ run_queue (contents r) ops
unfolding run run_queue
run-refines [] r v = refl
run-refines (takes ∷ ops) r v =
    let (v', e) = pop-refines r v in
    ap₂ (λ out rest. took out ∷ rest) (ap (λ x. x.1) e)
      (run-refines ops (pop r).0 v' ∙ ap (λ x. run_queue x.0 ops) e)
run-refines (stores w ∷ ops) r v =
    let (v', e) = push_frame-refines r w v in
    ap₂ (λ fits rest. stored fits ∷ rest) (ap (λ x. x.1) e)
      (run-refines ops (push_frame r w).0 v' ∙ ap (λ x. run_queue x.0 ops) e)
