-- ===== src/Kernel/Log/Crash.antt =====
-- kernel/log.c: a crash at any block write of `commit`, and of the recoveries after it.
use mathlib.Core.Path.{subst}
use os_network_concurrency_s.Common.{
  if-all, ℕ, ◌+◌, ◌-◌, ◌≡◌, ◌≤◌, ◌<◌, inl, inr, leb, ◌==◌, if◌then◌else◌, true, false, List, [],
  ◌∷◌, length, arith, refl, ap, Bool-cases, ℕ_discrete, sym, ◌∙◌, dec_lt,
}
use os_network_concurrency_s.Kernel.Log.Ops.{
  Log, Format, logged?, log_blocks, bwrite, install_from, install_trans, write_log_from, write_log,
  write_head, read_head, recover_from_log, commit_all, commit, reboot,
}
use os_network_concurrency_s.Kernel.Log.Copies.{
  IsHome, AllHome, Copied, IsHome-of_logged, write_log_from-LogWritten, Copied-agree,
  install_from-Installed, install_from-off, install_from-start,
}

not_logged :
    (start : ℕ) (bs : List ℕ) (a : ℕ)
    → AllHome start bs
    → start ≤ a
    → a ≤ start + log_blocks
    → logged? a bs ≡ false
not_logged start bs a home lo hi = elim (Bool-cases (logged? a bs)) [
  | inl in_log ↦ absurd (ground (arith, lo, hi, IsHome-of_logged start bs a home in_log))
  | inr out ↦ out
]

nothing_logged : (a : ℕ) (bs : List ℕ) → (length bs == 0) ≡ true → logged? a bs ≡ false
nothing_logged a [] e = refl
nothing_logged a (b ∷ bs) e = absurd (ground (arith, e))

module _ {B : Type 0} (format : Format B) where
  -- A full recovery of the disk `d` leaves `w` in the home blocks.
  pub record Recovers (start : ℕ) (d w : ℕ → B) : Type 0 where
    pub bs : List ℕ
    pub header : format.read (d start) ≡ bs
    pub home : AllHome start bs
    pub fits : length bs ≤ log_blocks
    pub logged : Copied d start 0 bs w
    pub outside : (a : ℕ) → IsHome start a → logged? a bs ≡ false → d a ≡ w a

  -- The end of a commit and of a recovery: install the logged blocks, then clear the log.
  abbrev install_and_clear : Log B → Log B
  install_and_clear s = write_head format (record (install_trans s) { lh = [] })

  record Finished (s t : Log B) (w : ℕ → B) : Type 0 where
    same_start : t.start ≡ s.start
    recovers : Recovers s.start t.disk w
    clear : length s.lh < s.power → (a : ℕ) → IsHome s.start a → t.disk a ≡ w a

  install_and_clear-Finished :
      (s : Log B) (w : ℕ → B)
      → format.read (s.disk s.start) ≡ s.lh
      → AllHome s.start s.lh
      → length s.lh ≤ log_blocks
      → Copied s.cache s.start 0 s.lh w
      → Copied s.disk s.start 0 s.lh w
      → ((a : ℕ) → IsHome s.start a → logged? a s.lh ≡ false → s.disk a ≡ w a)
      → Finished s (install_and_clear s) w
  unfolding write_head bwrite install_trans
  install_and_clear-Finished s w header home fits cached on_disk outside =
      let s' = install_from 0 s.lh s in
      let done = install_from-Installed 0 s.lh s w (omega (arith, fits)) home cached in
      let t = install_and_clear s in
      elim (ℕ_discrete s'.power 0) [
        | yes off ↦
            let same : (a : ℕ) → logged? a s.lh ≡ false → t.disk a ≡ s.disk a =
              λ a out. ground (arith, off, done.disk_outside a) in
            record {
              same_start = done.same_start;
              recovers = record {
                bs = s.lh;
                header =
                    ap format.read (
                      same s.start
                        (not_logged s.start s.lh s.start home (omega arith) (omega arith)))
                    ∙ header;
                home = home;
                fits = fits;
                logged =
                    Copied-agree s.disk t.disk s.start 0 s.lh w
                      (λ a lo hi. same a (not_logged s.start s.lh a home (omega (arith, lo)) hi))
                      (omega (arith, fits)) on_disk;
                outside = λ a h out. same a out ∙ outside a h out;
              };
              clear = λ on. absurd (omega (arith, done.power));
            }
        | no on ↦
            let new : (a : ℕ) → IsHome s.start a → t.disk a ≡ w a = λ a h.
              elim (Bool-cases (logged? a s.lh)) [
                | inl in_log ↦ ground (arith, h, done.same_start, done.on_disk on a in_log)
                | inr out ↦
                    ground (arith, h, done.same_start, done.disk_outside a out, outside a h out)
              ] in
            record {
              same_start = done.same_start;
              recovers = record {
                bs = [];
                header =
                    let erased : t.disk s.start ≡ format.write [] (s'.cache s'.start) =
                      ground (arith, on, done.same_start) in
                    ap format.read erased ∙ format.read-write [] (s'.cache s'.start) (omega arith);
                home = tt;
                fits = omega arith;
                logged = tt;
                outside = λ a h _. new a h;
              };
              clear = λ _ a h. new a h;
            }
      ]

  install_and_clear-off :
      (s : Log B) → s.power ≡ 0 → ((a : ℕ) → (install_and_clear s).disk a ≡ s.disk a)
  unfolding write_head bwrite install_trans
  install_and_clear-off s off =
      let done = install_from-off 0 s.lh s off in λ a. ground (arith, done.0, done.1 a)

  recover-Finished :
      (s : Log B) (w : ℕ → B) (q : ℕ)
      → Recovers s.start s.disk w
      → Finished (read_head format (reboot q s)) (recover_from_log format (reboot q s)) w
  unfolding recover_from_log read_head reboot
  recover-Finished s w q r =
      let eq = sym r.header in
      install_and_clear-Finished (read_head format (reboot q s)) w refl
        (subst (λ bs. AllHome s.start bs) eq r.home)
        (subst (λ bs. length bs ≤ log_blocks) eq r.fits)
        (subst (λ bs. Copied s.disk s.start 0 bs w) eq r.logged)
        (subst (λ bs. Copied s.disk s.start 0 bs w) eq r.logged)
        (subst (λ bs. (a : ℕ) → IsHome s.start a → logged? a bs ≡ false → s.disk a ≡ w a) eq
          r.outside)

  -- The state in which the last operation of a transaction ends: the log on the disk is clear, and
  -- only the logged blocks are newer in the cache than on the disk.
  pub record Ready (s : Log B) : Type 0 where
    pub home : AllHome s.start s.lh
    pub fits : length s.lh ≤ log_blocks
    pub header : format.read (s.disk s.start) ≡ []
    pub clean : (a : ℕ) → IsHome s.start a → logged? a s.lh ≡ false → s.cache a ≡ s.disk a

  -- Whether the header reaches the disk: it is the write after those of the log blocks.
  abbrev pub outcome : Log B → ℕ → B
  outcome s = if leb s.power (length s.lh) then s.disk else s.cache

  subst₂ :
      (P : ℕ → List ℕ → Type 0) (st st' : ℕ) (bs bs' : List ℕ)
      → st ≡ st'
      → bs ≡ bs'
      → P st bs
      → P st' bs'
  subst₂ P st st' bs bs' e e' p = subst (λ x. P x bs') e (subst (P st) e' p)

  -- The state when `commit` has written the log blocks and the header.
  record HeadWritten (s t : Log B) : Type 0 where
    same_start : t.start ≡ s.start
    same_lh : t.lh ≡ s.lh
    power : t.power ≡ s.power - length s.lh - 1
    home : (a : ℕ) → IsHome s.start a → t.disk a ≡ s.disk a
    cached : Copied t.cache s.start 0 s.lh s.cache
    short : s.power ≤ length s.lh → t.disk s.start ≡ s.disk s.start
    header : length s.lh < s.power → format.read (t.disk s.start) ≡ s.lh
    on_disk : length s.lh < s.power → Copied t.disk s.start 0 s.lh s.cache

  head-HeadWritten : (s : Log B) → Ready s → HeadWritten s (write_head format (write_log s))
  unfolding write_log write_head bwrite
  head-HeadWritten s ready =
      let fits : 0 + length s.lh ≤ log_blocks = omega (arith, ready.fits) in
      let s1 = write_log_from 0 s.lh s in
      let w1 = write_log_from-LogWritten 0 s.lh s s.cache fits ready.home (λ a _. refl) in
      let t = write_head format s1 in
      record {
        same_start = w1.same_start;
        same_lh = w1.same_lh;
        power = omega (arith, w1.power);
        home = λ a h. ground (arith, h, w1.same_start, w1.disk_outside a);
        cached =
            Copied-agree s1.cache t.cache s.start 0 s.lh s.cache
              (λ a lo hi. ground (arith, lo, w1.same_start)) fits w1.cached;
        short = λ le.
            ground
              (arith, w1.same_start, w1.power, le, w1.disk_outside s.start (inl (omega arith)));
        header = λ lt.
            let written : t.disk s.start ≡ format.write s1.lh (s1.cache s1.start) =
              ground (arith, w1.same_start, w1.power, lt) in
            ap format.read written
            ∙ format.read-write s1.lh (s1.cache s1.start)
                (subst (λ bs. length bs ≤ log_blocks) (sym w1.same_lh) ready.fits)
            ∙ w1.same_lh;
        on_disk = λ lt.
            Copied-agree s1.disk t.disk s.start 0 s.lh s.cache
              (λ a lo hi. ground (arith, lo, w1.same_start)) fits
              (w1.on_disk (λ off. absurd (omega (arith, off, w1.power, lt))));
      }

  -- What a commit leaves, whether the header reached the disk or not.
  pub record Committed (s t : Log B) : Type 0 where
    pub same_start : t.start ≡ s.start
    pub recovers : Recovers s.start t.disk (outcome s)

  commit_all-old :
      (s : Log B)
      → Ready s
      → s.power ≤ length s.lh
      → Recovers s.start (commit_all format s).disk s.disk
  unfolding commit_all
  commit_all-old s ready short =
      let s2 = write_head format (write_log s) in
      let h = head-HeadWritten s ready in
      let same = install_and_clear-off s2 (omega (arith, h.power, short)) in
      record {
        bs = [];
        header = ap format.read (same s.start ∙ h.short short) ∙ ready.header;
        home = tt;
        fits = omega arith;
        logged = tt;
        outside = λ a home _. same a ∙ h.home a home;
      }

  commit_all-Finished :
      (s : Log B)
      → Ready s
      → length s.lh < s.power
      → Finished (write_head format (write_log s)) (commit_all format s) s.cache
  unfolding commit_all
  commit_all-Finished s ready enough =
      let s2 = write_head format (write_log s) in
      let h = head-HeadWritten s ready in
      let start = sym h.same_start in
      let lh = sym h.same_lh in
      install_and_clear-Finished s2 s.cache
        (subst₂ (λ st bs. format.read (s2.disk st) ≡ bs) s.start s2.start s.lh s2.lh start lh
          (h.header enough))
        (subst₂ AllHome s.start s2.start s.lh s2.lh start lh ready.home)
        (subst (λ bs. length bs ≤ log_blocks) lh ready.fits)
        (subst₂ (λ st bs. Copied s2.cache st 0 bs s.cache) s.start s2.start s.lh s2.lh start lh
          h.cached)
        (subst₂ (λ st bs. Copied s2.disk st 0 bs s.cache) s.start s2.start s.lh s2.lh start lh
          (h.on_disk enough))
        (subst₂ (λ st bs. (a : ℕ) → IsHome st a → logged? a bs ≡ false → s2.disk a ≡ s.cache a)
          s.start s2.start s.lh s2.lh start lh
          (λ a home out. h.home a home ∙ sym (ready.clean a home out)))

  commit_all-start : (s : Log B) → Ready s → (commit_all format s).start ≡ s.start
  unfolding commit_all write_head bwrite install_trans
  commit_all-start s ready =
      let s2 = write_head format (write_log s) in
      install_from-start 0 s2.lh s2 ∙ (head-HeadWritten s ready).same_start

  commit_all-Committed : (s : Log B) → Ready s → Committed s (commit_all format s)
  commit_all-Committed s ready = record {
    same_start = commit_all-start s ready;
    recovers = elim (dec_lt (length s.lh) s.power) [
      | yes enough ↦
          let h = head-HeadWritten s ready in
          subst (λ st. Recovers st (commit_all format s).disk (outcome s)) h.same_start
            (subst (Recovers (write_head format (write_log s)).start (commit_all format s).disk)
              (ground (arith, enough)) (commit_all-Finished s ready enough).recovers)
      | no short ↦
          subst (Recovers s.start (commit_all format s).disk) (ground (arith, short))
            (commit_all-old s ready (omega (arith, short)))
    ];
  }

  commit-Committed : (s : Log B) → Ready s → Committed s (commit format s)
  unfolding commit
  commit-Committed s ready =
      if-all (Committed s) (length s.lh == 0) s (commit_all format s)
        (λ empty. record {
          same_start = refl;
          recovers = record {
            bs = [];
            header = ready.header;
            home = tt;
            fits = omega arith;
            logged = tt;
            outside = λ a home _. ground (arith, ready.clean a home (nothing_logged a s.lh empty));
          };
        })
        (λ _. commit_all-Committed s ready)

  -- Recoveries that are cut off, with the number of writes each of them gets to do.
  abbrev pub recoveries : List ℕ → Log B → Log B
  recoveries [] s = s
  recoveries (q ∷ qs) s = recoveries qs (recover_from_log format (reboot q s))

  recover-Committed :
      (s t : Log B) (q : ℕ) → Committed s t → Committed s (recover_from_log format (reboot q t))
  unfolding reboot read_head
  recover-Committed s t q c =
      let t' = recover_from_log format (reboot q t) in
      let done =
        recover-Finished t (outcome s) q
          (subst (λ st. Recovers st t.disk (outcome s)) (sym c.same_start) c.recovers) in
      record {
        same_start = done.same_start ∙ c.same_start;
        recovers = subst (λ st. Recovers st t'.disk (outcome s)) c.same_start done.recovers;
      }

  recoveries-Committed : (qs : List ℕ) (s t : Log B) → Committed s t → Committed s (recoveries qs t)
  recoveries-Committed [] s t c = c
  recoveries-Committed (q ∷ qs) s t c =
      recoveries-Committed qs s (recover_from_log format (reboot q t)) (recover-Committed s t q c)

  -- Suppose that the blocks of the log are home blocks and fit it, that the log on the disk is clear,
  -- and that the unlogged home blocks are the same in the cache and on the disk. Then, whatever
  -- number of writes `commit` gets to do before a crash, and whatever number of writes each of the
  -- recoveries after it gets to do before the next crash, a last recovery of more than 30 writes
  -- leaves every home block as it was on the disk, if the crash came before the header was
  -- written, and every home block as it was in the cache, if it came later or not at all.
  pub commit-atomic :
      (s : Log B) (qs : List ℕ) (q a : ℕ)
      → Ready s
      → log_blocks < q
      → IsHome s.start a
      → (recover_from_log format (reboot q (recoveries qs (commit format s)))).disk a
        ≡ (if leb s.power (length s.lh) then s.disk a else s.cache a)
  unfolding read_head reboot
  commit-atomic s qs q a ready enough home =
      let t = recoveries qs (commit format s) in
      let c = recoveries-Committed qs s (commit format s) (commit-Committed s ready) in
      let r = subst (λ st. Recovers st t.disk (outcome s)) (sym c.same_start) c.recovers in
      let done = recover-Finished t (outcome s) q r in
      let short = subst (λ bs. length bs ≤ log_blocks) (sym r.header) r.fits in
      let here = subst (λ st. IsHome st a) (sym c.same_start) home in
      ground (arith, done.clear (omega (arith, short, enough)) a here)
