-- ===== src/Suite/Argo/Abi.antt =====
-- The structures of include/xen/argo.h, the calls of Xen, and how tests/argo/main.c judges a result.
use xtf.Base.{ℕ, ◌+◌, ◌-◌, ◌*◌, ◌/◌, ◌^◌, ◌==◌, Bool, false, List}
use xtf.Base.Int.{ℤ, pos, negsuc}
use xtf.Printf.Parse.{Arg, int}
use xtf.Report.{Message}
use xtf.Suite.{Test, ◌>>◌, return, skip, failure}

-- The members of `xen_argo_ring_t` and of the header of the first message in it, with its `data`
pub record Ring : Type 0 where
  pub rx_ptr : ℕ
  pub tx_ptr : ℕ
  pub len : ℕ
  pub source_domain_id : ℕ
  pub source_aport : ℕ
  pub source_pad : ℕ
  pub message_type : ℕ
  pub payload : List ℕ

-- `xen_argo_addr_t` without the padding, which is 0
pub record Addr : Type 0 where
  pub domain_id : ℕ
  pub aport : ℕ

-- `xen_argo_register_ring_t` in the same way
pub record RegisterRing : Type 0 where
  pub reg_aport : ℕ
  pub partner_id : ℕ
  pub reg_len : ℕ

abbrev pub World : Type 0 → Type 0
World W = W × Ring

-- The four uses of hypercall_argo_op(): with the page frames and the flags; with the flags that
-- Xen sets in the only entry; and with the message and its type.
pub record Xen (W : Type 0) : Type 0 where
  pub register_ring : RegisterRing → List ℕ → ℕ → World W → ℤ × World W
  pub unregister_ring : RegisterRing → World W → ℤ × World W
  pub notify : Addr → World W → (ℤ × ℕ) × World W
  pub sendv : (src dst : Addr) → List ℕ → ℕ → World W → ℤ × World W

-- Xen's error numbers; `is_error e rc` is `rc == -e`.
abbrev pub is_error : ℕ → ℤ → Bool
is_error e (pos n) = false
is_error e (negsuc n) = n + 1 == e

abbrev pub is_zero : ℤ → Bool
is_zero (pos n) = n == 0
is_zero (negsuc n) = false

abbrev pub minus_one : ℤ
minus_one = negsuc 0

-- an `int` as an argument of xtf_failure()
abbrev pub arg : ℤ → Arg
arg (pos n) = int n
arg (negsuc n) = int (2 ^ 32 - 1 - n)

-- `xtf_failure(...); return -1;`
unfoldable pub fails : {W : Type 0} → Message → Test W ℤ
fails m = failure m >> return minus_one

unfoldable pub skips : {W : Type 0} → Message → Test W ℤ
skips m = skip m >> return minus_one

-- `XEN_ARGO_ROUNDUP`
abbrev pub roundup : ℕ → ℕ
roundup x = (x + 15) / 16 * 16
