-- ===== src/Suite/Argo/Inspect.antt =====
-- What tests/argo demands of the ring behind the first message.
use xtf.Base.{
  ℕ, ◌+◌, ◌*◌, ◌/◌, ◌≡◌, refl, sym, ◌==◌, ◌&&◌, Bool, true, false, if◌then◌else◌, List, [], ◌∷◌,
  length, arith, Bool-cases, inl, inr,
}
use xtf.Base.Int.{ℤ, pos, negsuc}
use xtf.Report.{Message}
use xtf.CString.{memcmp}
use xtf.Suite.{Test, ◌>>=◌}
use xtf.Suite.Effect.{Effect, bind, of_return, same, grade, grade-and}
use xtf.Suite.Argo.Abi.{Ring, World, roundup}
use xtf.Suite.Argo.Buffer.{
  verify, compares_equal, inspect, header_size, inspect_ring_after_first_single_sendv,
}
use xtf.Suite.Argo.Calls.{Judged, after_run, rejected}

-- a list that starts with another
abbrev pub starts_with : List ℕ → List ℕ → Bool
starts_with [] s = true
starts_with (c ∷ t) [] = false
starts_with (c ∷ t) (d ∷ s) = (d == c) && starts_with t s

compares : (s t : List ℕ) → compares_equal (memcmp s t (length t)) ≡ starts_with t s
unfolding memcmp
compares s [] = refl
compares [] (c ∷ t) = refl
compares (d ∷ s) (c ∷ t) = elim (Bool-cases (d == c)) [
  | inl e ↦ rw e (compares s t)
  | inr e ↦ rw e (ground (arith, e))
]

-- what `rc` is when all held so far
abbrev so_far : Bool → ℤ
so_far p = if p then pos 0 else negsuc 0

-- checks that go on from an `rc`
abbrev Continues : {W : Type 0} → (ℤ → Test W ℤ) → W → Bool → Type 0
Continues k w q = (p : Bool) → Effect (k (so_far p)) w (so_far (p && q)) w (grade q)

last : {W : Type 0} (h : Bool) (m : Message) (w : W) → Continues (verify h m) w h
unfolding verify
last true m w true = of_return _ w
last true m w false = of_return _ w
last false m w true = rejected m w
last false m w false = rejected m w

and_assoc : (p h q : Bool) → so_far ((p && h) && q) ≡ so_far (p && (h && q))
and_assoc true h q = refl
and_assoc false h q = refl

more :
    {W : Type 0} (h : Bool) (m : Message) (w : W) (k : ℤ → Test W ℤ) (q : Bool)
    → Continues k w q
    → Continues (λ rc. verify h m rc >>= k) w (h && q)
more h m w k q c p =
    same (bind k (last h m w p) (c (p && h))) (and_assoc p h q) refl (grade-and h q)

slots : (n : ℕ) → roundup (header_size + n) ≡ (n + 31) / 16 * 16
slots n = omega arith

-- The message is the first in the ring and nothing of it was received, its header has the source and the
-- type, both lengths count the header, and it starts with the text.
abbrev pub as_sent : Ring → (src_domid src_aport : ℕ) → List ℕ → (sent_msg_type : ℕ) → Bool
as_sent ring src_domid src_aport text sent_msg_type =
    (ring.rx_ptr == 0)
    && ((ring.tx_ptr == (length text + 31) / 16 * 16)
        && ((ring.source_domain_id == src_domid)
            && ((ring.source_aport == src_aport)
                && ((ring.source_pad == 0)
                    && ((sent_msg_type == ring.message_type)
                        && ((length text + 16 == ring.len) && starts_with text ring.payload))))))

pub inspect-Judged :
    {W : Type 0} (src_domid src_aport : ℕ) (text : List ℕ) (sent_msg_type : ℕ) (s : World W)
    → Judged
        (inspect_ring_after_first_single_sendv src_domid src_aport text (length text) sent_msg_type)
        s
        (as_sent s.1 src_domid src_aport text sent_msg_type)
        s
unfolding inspect_ring_after_first_single_sendv inspect
inspect-Judged src_domid src_aport text sent_msg_type s =
    let (w, ring) = s in
    let n = length text in
    after_run (λ u. (u.1, u)) _ s _
      (rw (sym (slots n), sym (compares ring.payload text))
        (more (ring.rx_ptr == 0) _ s _ _
          (more (ring.tx_ptr == roundup (header_size + n)) _ s _ _ (
            more (ring.source_domain_id == src_domid) _ s _ _ (
              more (ring.source_aport == src_aport) _ s _ _ (
                more (ring.source_pad == 0) _ s _ _ (
                  more (sent_msg_type == ring.message_type) _ s _ _ (
                    more (n + 16 == ring.len) _ s _ _
                      (last (compares_equal (memcmp ring.payload text n)) _ s)))))))
          true))
