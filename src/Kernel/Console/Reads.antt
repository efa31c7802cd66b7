-- ===== src/Kernel/Console/Reads.antt =====
-- kernel/console.c: consoleread, from a wake-up to the next sleep.
use os_network_concurrency_s.Common.{
  ℕ, zero, suc, ◌+◌, ◌%◌, ◌≡◌, ◌≢◌, ◌≤◌, ◌<◌, List, [], ◌∷◌, ◌++◌, add_uint, sub_uint, arith, refl,
  ap, ◌∙◌, ◌==◌, ltb, not, Bool, length, if-all,
}
use os_network_concurrency_s.Kernel.Console.{
  Cons, input_buf_size, control, ReadEnd, failed, returned, sleeping, consoleread_from, consoleread,
}
use os_network_concurrency_s.Kernel.Console.Window.{window, committed, IsValid}

-- Bytes of one line: only the last of them can be a newline or an end of file.
abbrev pub InLine : List ℕ → Type 0
InLine [] = Unit
InLine (c ∷ []) = Unit
InLine (c ∷ d ∷ cs) = (c ≢ b'\n') × ((c ≢ control b'D') × InLine (d ∷ cs))

-- How the number of bytes of a read follows from those taken off the buffer: an end of file and a
-- byte that cannot be delivered are taken and not counted.
abbrev pub Counted : ReadEnd → ℕ → ℕ → ℕ → Type 0
Counted failed n i k = Unit
Counted (returned m) n i k = (m ≤ i + n) × ((m ≤ i + k) × (i + k ≤ m + 1))
Counted (sleeping m) n i k = (m < i + n) × (m ≡ i + k)

pub record Consumed (n i : ℕ) (s : Cons) (o : ReadEnd × Cons) : Type 0 where
  pub valid : IsValid o.1
  pub same : (o.1.buf ≡ s.buf) × ((o.1.w ≡ s.w) × (o.1.e ≡ s.e))
  pub taken : List ℕ
  pub front : committed s ≡ taken ++ committed o.1
  pub line : InLine taken
  pub counted : Counted o.0 n i (length taken)

nothing-Consumed :
    (n i : ℕ) (s : Cons) (end : ReadEnd) → IsValid s → Counted end n i 0 → Consumed n i s (end, s)
nothing-Consumed n i s end v h = record {
  valid = v;
  same = (refl, (refl, refl));
  taken = [];
  front = refl;
  line = tt;
  counted = h;
}

-- The front byte and the state without it.
abbrev byte : Cons → ℕ
byte s = s.buf (s.r % input_buf_size)

abbrev without_byte : Cons → Cons
without_byte s = record s { r = add_uint s.r 1 }

without_byte-IsValid : (s : Cons) → IsValid s → s.r ≢ s.w → IsValid (without_byte s)
without_byte-IsValid s v ne = record {
  words = omega (arith, v.words);
  ordered = omega (arith, v.words, v.ordered, ne);
  bounded = omega (arith, v.words, v.ordered, v.bounded, ne);
}

committed_front :
    (s : Cons) → IsValid s → s.r ≢ s.w → committed s ≡ byte s ∷ committed (without_byte s)
committed_front s v ne =
    let one : sub_uint s.w s.r ≡ suc (sub_uint s.w (add_uint s.r 1)) = omega (arith, v.words, ne) in
    ap (window s.buf s.r) one

last-Consumed :
    (n i : ℕ) (s : Cons) (end : ReadEnd)
    → IsValid s
    → s.r ≢ s.w
    → Counted end (suc n) i 1
    → Consumed (suc n) i s (end, without_byte s)
last-Consumed n i s end v ne h = record {
  valid = without_byte-IsValid s v ne;
  same = (refl, (refl, refl));
  taken = byte s ∷ [];
  front = committed_front s v ne;
  line = tt;
  counted = h;
}

InLine-cons : (c : ℕ) (cs : List ℕ) → c ≢ b'\n' → c ≢ control b'D' → InLine cs → InLine (c ∷ cs)
InLine-cons c [] h h' l = tt
InLine-cons c (d ∷ cs) h h' l = (h, (h', l))

Counted-suc : (end : ReadEnd) (n i k : ℕ) → Counted end n (i + 1) k → Counted end (suc n) i (suc k)
Counted-suc failed n i k h = tt
Counted-suc (returned m) n i k h = omega (arith, h)
Counted-suc (sleeping m) n i k h = omega (arith, h)

later-Consumed :
    (n i : ℕ) (s : Cons) (o : ReadEnd × Cons)
    → IsValid s
    → s.r ≢ s.w
    → byte s ≢ b'\n'
    → byte s ≢ control b'D'
    → Consumed n (i + 1) (without_byte s) o
    → Consumed (suc n) i s o
later-Consumed n i s o v ne line eof h = record {
  valid = h.valid;
  same = h.same;
  taken = byte s ∷ h.taken;
  front = committed_front s v ne ∙ ap (λ l. byte s ∷ l) h.front;
  line = InLine-cons (byte s) h.taken line eof h.line;
  counted = Counted-suc o.0 n i (length h.taken) h.counted;
}

module _ (deliver : ℕ → ℕ → Bool) (killed : Bool) where
  consoleread_from-Consumed :
      (n i : ℕ) (s : Cons) → IsValid s → Consumed n i s (consoleread_from n deliver killed i s)
  unfolding consoleread_from
  consoleread_from-Consumed zero i s v = nothing-Consumed zero i s (returned i) v (omega arith)
  consoleread_from-Consumed (suc n) i s v =
      let P = Consumed (suc n) i s in
      let c = byte s in
      let taken = without_byte s in
      if-all P (s.r == s.w) _ _
        (λ _.
          if-all P killed (failed, s) (sleeping i, s)
            (λ _. nothing-Consumed (suc n) i s failed v tt)
            (λ _. nothing-Consumed (suc n) i s (sleeping i) v (omega arith)))
        (λ more.
          let ne : s.r ≢ s.w = ground (arith, more) in
          if-all P (c == control b'D') _ _
            (λ _.
              if-all (λ t. P (returned i, t)) (ltb 0 i) s taken
                (λ _. nothing-Consumed (suc n) i s (returned i) v (omega arith))
                (λ _. last-Consumed n i s (returned i) v ne (omega arith)))
            (λ no_eof.
              if-all P (not (deliver i c)) (returned i, taken) _
                (λ _. last-Consumed n i s (returned i) v ne (omega arith))
                (λ _.
                  if-all P (c == b'\n') (returned (i + 1), taken) _
                    (λ _. last-Consumed n i s (returned (i + 1)) v ne (omega arith))
                    (λ no_line.
                      later-Consumed n i s _ v ne (ground (arith, no_line)) (ground (arith, no_eof))
                        (consoleread_from-Consumed n (i + 1) taken
                          (without_byte-IsValid s v ne))))))

  -- A read of up to `n` bytes from a buffer whose indices are in order leaves them in order and
  -- changes only the read index. The bytes it takes are the first of those handed over, in order,
  -- and they are of one line: only the last one can be a newline or an end of file. When it
  -- returns a count, that is at most `n`, and the number of bytes taken or one less; when it
  -- sleeps, it has fewer than `n` bytes.
  pub consoleread-Consumed :
      (n : ℕ) (s : Cons) → IsValid s → Consumed n 0 s (consoleread n deliver killed s)
  unfolding consoleread
  consoleread-Consumed n s v = consoleread_from-Consumed n 0 s v
