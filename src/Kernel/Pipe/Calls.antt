-- ===== src/Kernel/Pipe/Calls.antt =====
-- kernel/pipe.c: what the calls do to the queue of bytes.
use mathlib.Core.Path.{subst}
use os_network_concurrency_s.Common.{
  ◌⊎◌, ◌&&◌, ℕ, zero, suc, ◌+◌, ◌-◌, ◌≡◌, ◌≤◌, ◌↔◌, Option, none, some, ◌==◌, if◌then◌else◌, Bool,
  true, false, ◌||◌, not, List, [], ◌∷◌, ◌++◌, arith, refl, ap, ◌∙◌, sym, append-nil, append_assoc,
  Bool-cases, Option-cases, inl, inr,
}
use os_network_concurrency_s.Kernel.Pipe.{
  Pipe, is_full, is_empty, put, front, drop_front, Stop, error, count, asleep, pipewrite_from,
  pipewrite, piperead_from, piperead,
}
use os_network_concurrency_s.Kernel.Pipe.Fifo.{
  IsValid, contents, full_empty, put-appends, drop_front-takes,
}

-- The bytes that `fetch` gives from index `i` up to `j`.
pub data Fetched (fetch : ℕ → Option ℕ) : ℕ → ℕ → List ℕ → Type 0 where
  nothing : {i : ℕ} → Fetched fetch i i []
  byte :
      {i j ch : ℕ} {l : List ℕ}
      → fetch i ≡ some ch
      → Fetched fetch (i + 1) j l
      → Fetched fetch i j (ch ∷ l)

suc-ne : (i : ℕ) → (suc i == 0) ≡ false
suc-ne i = ground arith

module _ (fetch : ℕ → Option ℕ) (killed : ℕ → Bool) where
  -- Whether the round for byte `j` gives up.
  abbrev pub cannot_write : ℕ → Pipe → Bool
  cannot_write j pi = not pi.readopen || killed j

  -- Why a stretch of `pipewrite` with `n` bytes to write ended at byte `j`.
  abbrev pub EndsAt : ℕ → ℕ → Pipe → Stop → Type 0
  EndsAt n j pi error = cannot_write j pi ≡ true
  EndsAt n j pi (count k) = (k ≡ j) × ((j ≡ n) ⊎ (fetch j ≡ none))
  EndsAt n j pi (asleep k) = (k ≡ j) × (is_full pi ≡ true)

  -- A stretch of `pipewrite` from byte `i` of `n` on: the pipe has got the bytes up to `stop_at`, in
  -- order and at its end.
  pub record Written (i n : ℕ) (pi : Pipe) (out : Stop × Pipe) : Type 0 where
    pub stop_at : ℕ
    pub bytes : List ℕ
    pub fetched : Fetched fetch i stop_at bytes
    pub queue : contents out.1 ≡ contents pi ++ bytes
    pub valid : IsValid out.1
    pub reader : out.1.readopen ≡ pi.readopen
    pub ends : EndsAt n stop_at out.1 out.0

  nothing-Written :
      (i n : ℕ) (pi : Pipe) (stop : Stop)
      → IsValid pi
      → EndsAt n i pi stop
      → Written i n pi (stop, pi)
  nothing-Written i n pi stop v e = record {
    stop_at = i;
    bytes = [];
    fetched = nothing;
    queue = sym (append-nil (contents pi));
    valid = v;
    reader = refl;
    ends = e;
  }

  one_more :
      (i n ch : ℕ) (pi : Pipe) (out : Stop × Pipe)
      → fetch i ≡ some ch
      → contents (put pi ch) ≡ contents pi ++ (ch ∷ [])
      → Written (i + 1) n (put pi ch) out
      → Written i n pi out
  one_more i n ch pi out f app w = record {
    stop_at = w.stop_at;
    bytes = ch ∷ w.bytes;
    fetched = byte f w.fetched;
    queue = w.queue ∙ ap (λ l. l ++ w.bytes) app ∙ append_assoc (contents pi) (ch ∷ []) w.bytes;
    valid = w.valid;
    reader = w.reader;
    ends = w.ends;
  }

  pipewrite_from-Written :
      (rounds i n : ℕ) (pi : Pipe)
      → n ≡ i + rounds
      → IsValid pi
      → Written i n pi (pipewrite_from rounds fetch killed i pi)
  unfolding pipewrite_from
  pipewrite_from-Written zero i n pi e v =
      nothing-Written i n pi (count i) v (refl, inl (omega arith))
  pipewrite_from-Written (suc rounds) i n pi e v = elim (Bool-cases (cannot_write i pi)) [
    | inl bad ↦
        subst (Written i n pi) (sym (ground (arith, bad))) (nothing-Written i n pi error v bad)
    | inr ok ↦ elim (Bool-cases (is_full pi)) [
      | inl full ↦
          subst (Written i n pi) (sym (ground (arith, ok, full)))
            (nothing-Written i n pi (asleep i) v (refl, full))
      | inr room ↦ elim (Option-cases (fetch i)) [
        | inl bad ↦
            subst (Written i n pi) (sym (ground (arith, ok, room, bad)))
              (nothing-Written i n pi (count i) v (refl, inr bad))
        | inr (ch, got) ↦
            let (v', app) = put-appends ch v room in
            subst (Written i n pi) (sym (ground (arith, ok, room, got))) (
              one_more i n ch pi (pipewrite_from rounds fetch killed (i + 1) (put pi ch)) got app
                (pipewrite_from-Written rounds (i + 1) n (put pi ch) (omega arith) v'))
      ]
    ]
  ]

  -- A stretch of `pipewrite` on a valid pipe appends to its queue exactly the bytes from `i` up to
  -- where it ends. It ends with the count when all `n` are written or one cannot be fetched, asleep
  -- when the pipe is full, and with -1 at a byte where the pipe has no reader or the process is
  -- found killed; the bytes before it stay in the pipe.
  pub pipewrite-Written :
      (n i : ℕ) (pi : Pipe) → i ≤ n → IsValid pi → Written i n pi (pipewrite n fetch killed i pi)
  unfolding pipewrite
  pipewrite-Written n i pi le v = pipewrite_from-Written (n - i) i n pi (omega arith) v

-- The bytes handed to `deliver` from index `i` on, each of them accepted.
pub data Delivered (deliver : ℕ → ℕ → Bool) : ℕ → ℕ → List ℕ → Type 0 where
  nothing : {i : ℕ} → Delivered deliver i i []
  byte :
      {i j ch : ℕ} {l : List ℕ}
      → deliver i ch ≡ true
      → Delivered deliver (i + 1) j l
      → Delivered deliver i j (ch ∷ l)

module _ (deliver : ℕ → ℕ → Bool) where
  -- Why a read of `n` bytes ended at byte `j`.
  abbrev pub ReadEnds : ℕ → ℕ → Pipe → Stop → Type 0
  ReadEnds n j pi error = (j ≡ 0) × (deliver 0 (front pi) ≡ false)
  ReadEnds n j pi (count k) =
      (k ≡ j) × ((j ≡ n) ⊎ ((contents pi ≡ []) ⊎ (deliver j (front pi) ≡ false)))
  ReadEnds n j pi (asleep k) = ⊥

  -- The bytes delivered are taken off the front of the queue, in order; no other byte is lost.
  pub record Read (i n : ℕ) (pi : Pipe) (out : Stop × Pipe) : Type 0 where
    pub stop_at : ℕ
    pub bytes : List ℕ
    pub delivered : Delivered deliver i stop_at bytes
    pub queue : contents pi ≡ bytes ++ contents out.1
    pub valid : IsValid out.1
    pub ends : ReadEnds n stop_at out.1 out.0

  nothing-Read :
      (i n : ℕ) (pi : Pipe) (stop : Stop)
      → IsValid pi
      → ReadEnds n i pi stop
      → Read i n pi (stop, pi)
  nothing-Read i n pi stop v e = record {
    stop_at = i;
    bytes = [];
    delivered = nothing;
    queue = refl;
    valid = v;
    ends = e;
  }

  refused :
      (i n : ℕ) (pi : Pipe)
      → deliver i (front pi) ≡ false
      → ReadEnds n i pi (if i == 0 then error else count i)
  refused zero n pi e = (refl, e)
  refused (suc i) n pi e = rw (suc-ne i) (refl, inr (inr e))

  one_more-Read :
      (i n : ℕ) (pi : Pipe) (out : Stop × Pipe)
      → deliver i (front pi) ≡ true
      → contents pi ≡ front pi ∷ contents (drop_front pi)
      → Read (i + 1) n (drop_front pi) out
      → Read i n pi out
  one_more-Read i n pi out d split r = record {
    stop_at = r.stop_at;
    bytes = front pi ∷ r.bytes;
    delivered = byte d r.delivered;
    queue = split ∙ ap (λ l. front pi ∷ l) r.queue;
    valid = r.valid;
    ends = r.ends;
  }

  piperead_from-Read :
      (rounds i n : ℕ) (pi : Pipe)
      → n ≡ i + rounds
      → IsValid pi
      → Read i n pi (piperead_from rounds deliver i pi)
  unfolding piperead_from
  piperead_from-Read zero i n pi e v = nothing-Read i n pi (count i) v (refl, inl (omega arith))
  piperead_from-Read (suc rounds) i n pi e v = elim (Bool-cases (is_empty pi)) [
    | inl none_left ↦
        subst (Read i n pi) (sym (ground (arith, none_left)))
          (nothing-Read i n pi (count i) v (refl, inr (inl ((full_empty v).1.0 none_left))))
    | inr more ↦ elim (Bool-cases (deliver i (front pi))) [
      | inl good ↦
          let (v', split) = drop_front-takes v more in
          subst (Read i n pi) (sym (ground (arith, more, good))) (
            one_more-Read i n pi (piperead_from rounds deliver (i + 1) (drop_front pi)) good split
              (piperead_from-Read rounds (i + 1) n (drop_front pi) (omega arith) v'))
      | inr bad ↦
          subst (Read i n pi) (sym (ground (arith, more, bad)))
            (nothing-Read i n pi (if i == 0 then error else count i) v (refused i n pi bad))
    ]
  ]

  -- A read of a valid pipe that has bytes or no writer takes bytes off the front of the queue, in
  -- order, hands exactly those to the caller, and ends when it has `n`, when the pipe is empty, or
  -- at a byte that cannot be delivered, which stays in the pipe.
  pub piperead-Read :
      (n : ℕ) (killed : Bool) (pi : Pipe)
      → IsValid pi
      → (is_empty pi && pi.writeopen) ≡ false
      → Read 0 n pi (piperead n deliver killed pi)
  unfolding piperead
  piperead-Read n killed pi v go =
      subst (Read 0 n pi) (sym (ground (arith, go))) (piperead_from-Read n 0 n pi (omega arith) v)

  -- A read of a valid pipe sleeps exactly if the pipe is empty, has a writer and the process was not
  -- killed.
  pub piperead-asleep :
      (n : ℕ) (killed : Bool) (pi : Pipe)
      → IsValid pi
      → (piperead n deliver killed pi ≡ (asleep 0, pi))
        ↔ ((is_empty pi ≡ true) × (pi.writeopen ≡ true) × (killed ≡ false))
  unfolding piperead
  piperead-asleep n killed pi v = (
    λ e. elim (Bool-cases (is_empty pi && pi.writeopen)) [
      | inl waits ↦ ground (arith, waits, e)
      | inr go ↦
          let r : Read 0 n pi (piperead n deliver killed pi) = piperead-Read n killed pi v go in
          absurd (
            subst (λ st. ReadEnds n r.stop_at (piperead n deliver killed pi).1 st)
              (ap (λ (t : Stop × Pipe). t.0) e) r.ends)
    ],
    λ h. ground (arith, h),
  )
