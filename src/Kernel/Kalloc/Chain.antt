-- ===== src/Kernel/Kalloc/Chain.antt =====
-- The free list as a list of pages: what `kmem` represents.
use os_network_concurrency_s.Common.{ℕ, ◌≡◌, ◌≢◌, ◌≤◌, ◌<◌, ◌%◌, List, [], ◌∷◌}
use os_network_concurrency_s.Kernel.Riscv.{pg_size, phys_top}
use os_network_concurrency_s.Kernel.Memory.{Memory}
use os_network_concurrency_s.Kernel.Kalloc.{Kmem}

-- A page that the allocator may hold: aligned, in the range of `kfree`, and not the null pointer.
pub record IsPage (kernel_end pa : ℕ) : Type 0 where
  pub aligned : pa % pg_size ≡ 0
  pub above : kernel_end ≤ pa
  pub below : pa < phys_top
  pub nonnull : pa ≢ 0

abbrev pub AllPages : ℕ → List ℕ → Type 0
AllPages e [] = Unit
AllPages e (p ∷ ps) = IsPage e p × AllPages e ps

abbrev pub NotIn : ℕ → List ℕ → Type 0
NotIn p [] = Unit
NotIn p (q ∷ qs) = (p ≢ q) × NotIn p qs

abbrev pub Distinct : List ℕ → Type 0
Distinct [] = Unit
Distinct (p ∷ ps) = NotIn p ps × Distinct ps

-- Following the links from `head` visits exactly `pages`, and ends at the null pointer.
abbrev pub Chain : Memory → ℕ → List ℕ → Type 0
Chain m head [] = head ≡ 0
Chain m head (p ∷ ps) = (head ≡ p) × Chain m (m p) ps

pub record Represents (kernel_end : ℕ) (k : Kmem) (pages : List ℕ) : Type 0 where
  pub chain : Chain k.mem k.freelist pages
  pub valid : AllPages kernel_end pages
  pub distinct : Distinct pages

-- Two memories that agree on the pages of a chain agree on the chain.
pub Chain-agree :
    (m m' : Memory) (head : ℕ) (pages : List ℕ) (pa : ℕ)
    → ((a : ℕ) → a % pg_size ≡ 0 → pa ≢ a → m' a ≡ m a)
    → (e : ℕ) → AllPages e pages
    → NotIn pa pages
    → Chain m head pages
    → Chain m' head pages
Chain-agree m m' head [] pa same e v out c = c
Chain-agree m m' head (p ∷ ps) pa same e v out c =
    (c.0, rw (same p v.0.aligned out.0) (Chain-agree m m' (m p) ps pa same e v.1 out.1 c.1))
