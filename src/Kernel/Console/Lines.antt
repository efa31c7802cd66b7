-- ===== src/Kernel/Console/Lines.antt =====
-- kernel/console.c: what each input character and each read do to the lines.
use os_network_concurrency_s.Common.{
  ℕ, zero, suc, ◌+◌, ◌%◌, ◌≡◌, ◌≤◌, ◌<◌, ◌⊎◌, inl, List, [], ◌++◌, update, add_uint, sub_uint,
  arith, ap, ◌∙◌, if◌then◌else◌, ◌==◌, ltb, not, ◌&&◌, ◌||◌, false, append-nil, sym, if-all, ◌≢◌,
}
use os_network_concurrency_s.Kernel.Console.{
  Cons, input_buf_size, control, kill_from, kill_line, backspace, store_input, input, consoleintr,
}
use os_network_concurrency_s.Kernel.Console.Window.{
  window, window-stored, committed, IsValid, window-append,
}

abbrev pub Keeps : Cons → Cons → Type 0
Keeps s t = IsValid t × ((rest : List ℕ) × (committed t ≡ committed s ++ rest))

same-Keeps : (s : Cons) → IsValid s → Keeps s s
same-Keeps s v = (v, ([], sym (append-nil (committed s))))

-- One character less to edit.
shorter-IsValid :
    (s : Cons) → IsValid s → (s.e == s.w) ≡ false → IsValid (record s { e = sub_uint s.e 1 })
shorter-IsValid s v ne =
    let differ : s.e ≢ s.w = ground (arith, ne) in
    record {
      words = omega (arith, v.words);
      ordered = omega (arith, v.words, v.ordered, differ);
      bounded = omega (arith, v.words, v.ordered, v.bounded, differ);
    }

kill_from-Keeps : (n : ℕ) (s : Cons) → IsValid s → Keeps s (kill_from n s)
unfolding kill_from
kill_from-Keeps zero s v = same-Keeps s v
kill_from-Keeps (suc n) s v =
    let shorter = record s { e = sub_uint s.e 1 } in
    if-all (Keeps s) (not (s.e == s.w) && not (s.buf (sub_uint s.e 1 % input_buf_size) == b'\n'))
      (kill_from n shorter) s
      (λ e. kill_from-Keeps n shorter (shorter-IsValid s v (ground (arith, e))))
      (λ _. same-Keeps s v)

backspace-Keeps : (s : Cons) → IsValid s → Keeps s (backspace s)
unfolding backspace
backspace-Keeps s v =
    let shorter = record s { e = sub_uint s.e 1 } in
    if-all (Keeps s) (s.e == s.w) s shorter (λ _. same-Keeps s v)
      (λ ne. (shorter-IsValid s v ne, ([], sym (append-nil (committed s)))))

store_input-Keeps :
    (c : ℕ) (s : Cons) → IsValid s → sub_uint s.e s.r < input_buf_size → Keeps s (store_input c s)
unfolding store_input
store_input-Keeps c s v room =
    let buf = update s.buf (s.e % input_buf_size) c in
    let stored = record s { buf = buf; e = add_uint s.e 1 } in
    let old = sub_uint s.w s.r in
    let new = sub_uint s.e s.w + 1 in
    let same = window-stored s c old v room v.ordered in
    let all : sub_uint stored.e s.r ≡ old + new = omega (arith, v.words, v.ordered, room) in
    if-all (Keeps s)
      ((c == b'\n') || (c == control b'D') || (sub_uint stored.e s.r == input_buf_size))
      (record stored { w = stored.e }) stored
      (λ _. (
        record {
          words = omega (arith, v.words);
          ordered = omega arith;
          bounded = omega (arith, v.words, room);
        },
        (
          window buf (add_uint s.r old) new,
          ap (window buf s.r) all
              ∙ window-append buf s.r old new v.words.0
              ∙ ap (λ l. l ++ window buf (add_uint s.r old) new) same,
        ),
      ))
      (λ _. (
        record {
          words = omega (arith, v.words);
          ordered = omega (arith, v.words, v.ordered, room);
          bounded = omega (arith, v.words, room);
        },
        ([], same ∙ sym (append-nil (committed s))),
      ))

input-Keeps : (c : ℕ) (s : Cons) → IsValid s → Keeps s (input c s)
unfolding input
input-Keeps c s v =
    if-all (Keeps s) (not (c == 0) && ltb (sub_uint s.e s.r) input_buf_size)
      (store_input (if c == b'\r' then b'\n' else c) s) s
      (λ e. store_input-Keeps (if c == b'\r' then b'\n' else c) s v (ground (arith, e)))
      (λ _. same-Keeps s v)

-- Every input character keeps the indices of the buffer in order and within its size, and what has
-- been handed to the readers stays, in order: neither an erase nor a kill takes back any of it, and
-- new input is added behind it.
pub consoleintr-Keeps :
    (c : ℕ) (s : Cons)
    → IsValid s
    → IsValid (consoleintr c s)
      × ((rest : List ℕ) × (committed (consoleintr c s) ≡ committed s ++ rest))
unfolding consoleintr kill_line
consoleintr-Keeps c s v =
    if-all (Keeps s) (c == control b'P') s _ (λ _. same-Keeps s v)
      (λ _.
        if-all (Keeps s) (c == control b'U') (kill_line s) _
          (λ _. kill_from-Keeps (sub_uint s.e s.w) s v)
          (λ _.
            if-all (Keeps s) ((c == control b'H') || (c == 0x7f)) (backspace s) (input c s)
              (λ _. backspace-Keeps s v) (λ _. input-Keeps c s v)))

kill_from_lem :
    (n : ℕ) (s : Cons)
    → IsValid s
    → sub_uint s.e s.w ≤ n
    → ((kill_from n s).e ≡ s.w)
      ⊎ ((kill_from n s).buf (sub_uint (kill_from n s).e 1 % input_buf_size) ≡ b'\n')
unfolding kill_from
kill_from_lem zero s v le = inl (omega (arith, v.words, le))
kill_from_lem (suc n) s v le =
    let shorter = record s { e = sub_uint s.e 1 } in
    if-all (λ t. (t.e ≡ s.w) ⊎ (t.buf (sub_uint t.e 1 % input_buf_size) ≡ b'\n'))
      (not (s.e == s.w) && not (s.buf (sub_uint s.e 1 % input_buf_size) == b'\n'))
      (kill_from n shorter) s
      (λ e.
        let differ : s.e ≢ s.w = ground (arith, e) in
        kill_from_lem n shorter (shorter-IsValid s v (ground (arith, e)))
          (omega (arith, v.words, le, differ)))
      (λ e. ground (arith, e))

-- Killing a line goes back to what was handed over, or to the end of an earlier line.
pub kill_line_lem :
    (s : Cons)
    → IsValid s
    → ((kill_line s).e ≡ s.w)
      ⊎ ((kill_line s).buf (sub_uint (kill_line s).e 1 % input_buf_size) ≡ b'\n')
unfolding kill_line
kill_line_lem s v = kill_from_lem (sub_uint s.e s.w) s v (omega arith)
