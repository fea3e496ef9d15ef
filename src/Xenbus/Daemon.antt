-- ===== src/Xenbus/Daemon.antt =====
-- What xenbus_write() and xenbus_read() rely on of xenstored, which is another program.
use xtf.Base.{ℕ, ◌<◌, ◌≤◌, ◌≡◌, List, ◌++◌, length, take, drop}
use xtf.Xenbus.{Page}
use xtf.Xenbus.Transfer.{Requests, Responses}

module _ {D : Type 0} (taken sent : D → List ℕ) (reply : List ℕ → List ℕ) where
  -- What a run of xenstored does to the queues `q` and `r`: it takes `k` bytes and sends `more`.
  pub record Served (q r : List ℕ) (d : D) (s : Page × D) : Type 0 where
    pub k : ℕ
    pub more : List ℕ
    pub owed : List ℕ
    pub within : k ≤ length q
    pub requests : Requests s.0 (drop k q)
    pub responses : Responses s.0 (r ++ more)
    pub takes : taken s.1 ≡ taken d ++ take k q
    pub sends : sent s.1 ≡ sent d ++ more
    pub owes : reply (taken s.1) ≡ sent s.1 ++ owed
    pub accepts : 0 < length q → 0 < k
    pub answers :
        length q ≡ 0 → length r ≡ 0 → length (sent d) < length (reply (taken d)) → 0 < length more

  -- xenstored has taken the bytes `taken`, which are answered by the bytes `reply taken`; of these it
  -- has sent `sent`. A run of it takes some of what is in the ring, and sends some of what it owes when
  -- both directions are empty. Further requests do not change what is answered to the earlier ones.
  pub record IsDaemon (xenstored : Page × D → Page × D) : Type 0 where
    pub serves :
        (page : Page) (d : D) (q r owed : List ℕ)
        → Requests page q
        → length q ≤ 1023
        → Responses page r
        → reply (taken d) ≡ sent d ++ owed
        → Served q r d (xenstored (page, d))
    pub extends : (s t : List ℕ) → (u : List ℕ) × (reply (s ++ t) ≡ reply s ++ u)

  -- Between calls the driver has written `W` and read `R` in all.
  pub record Link (R W : List ℕ) (s : Page × D) : Type 0 where
    pub q : List ℕ
    pub r : List ℕ
    pub owed : List ℕ
    pub requests : Requests s.0 q
    pub room : length q ≤ 1023
    pub responses : Responses s.0 r
    pub written : taken s.1 ++ q ≡ W
    pub arrived : sent s.1 ≡ R ++ r
    pub owes : reply (taken s.1) ≡ sent s.1 ++ owed

  -- The driver has waited for the bytes and read them.
  abbrev pub HasRead : (R W bytes : List ℕ) → List ℕ × (Page × D) → Type 0
  HasRead R W bytes x = (x.0 ≡ bytes) × Link (R ++ bytes) W x.1
