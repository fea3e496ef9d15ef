-- ===== src/Suite/Argo/Buffer.antt =====
-- The ring buffer of tests/argo/main.c: how it is cleared, and the checks after a message.
use xtf.Base.{ℕ, ◌+◌, ◌==◌, Bool, false, if◌then◌else◌, List, [], ◌∷◌}
use xtf.Base.Int.{ℤ, pos}
use xtf.Base.Run.{Run, ok, fault, out_of_fuel}
use xtf.Printf.Parse.{int}
use xtf.CString.{memcmp}
use xtf.Report.{Message}
use xtf.Suite.{Test, ◌>>=◌, return, run, message}
use xtf.Suite.Argo.Abi.{Ring, World, is_zero, fails, roundup}

-- `sizeof(struct xen_argo_ring_message_header)`
abbrev pub header_size : ℕ
header_size = 16

-- `if ( !holds ) { failure; rc = -1; }`
unfoldable pub verify : {W : Type 0} → Bool → Message → ℤ → Test W ℤ
verify holds m rc = if holds then return rc else fails m

-- `memcmp(...) == 0`; a message that is shorter than `n` is not the one that was sent.
abbrev pub compares_equal : Run ℤ → Bool
compares_equal (ok c) = is_zero c
compares_equal fault = false
compares_equal out_of_fuel = false

-- the checks of inspect_ring_after_first_single_sendv() on the ring
unfoldable pub inspect :
    {W : Type 0}
    → Ring
    → (src_domid src_aport : ℕ) → List ℕ
    → (sent_msg_len sent_msg_type : ℕ) → Test W ℤ
inspect ring src_domid src_aport sent_msg sent_msg_len sent_msg_type = do
  rc ←
      verify (ring.rx_ptr == 0)
        ((message "Fail: Receive pointer non-zero after sendv: %u\n" (int ring.rx_ptr ∷ [])))
        (pos 0)
  rc ←
      verify (ring.tx_ptr == roundup (header_size + sent_msg_len))
        ((message "Fail: Transmit pointer incorrect after sendv: %u\n" (int ring.rx_ptr ∷ []))) rc
  rc ←
      verify (ring.source_domain_id == src_domid)
        ((message "Fail: Source domain id incorrect: %u, expected %u\n"
          (int ring.source_domain_id ∷ int src_domid ∷ [])))
        rc
  rc ←
      verify (ring.source_aport == src_aport)
        ((message "Fail: Source domain port incorrect: %u, expected %u\n"
          (int ring.source_domain_id ∷ int src_aport ∷ [])))
        rc
  rc ←
      verify (ring.source_pad == 0)
        ((message "Fail: Source padding incorrect: %u, expected zero\n" (int ring.source_pad ∷ [])))
        rc
  rc ←
      verify (sent_msg_type == ring.message_type)
        ((message "Fail: Message type incorrect: %u sent, %u received\n"
          (int sent_msg_type ∷ int ring.message_type ∷ [])))
        rc
  let sent_length = sent_msg_len + header_size
  rc ←
      verify (sent_length == ring.len)
        ((message
          "Fail: Received message length incorrect: %u sent is %u with header added, %u received\n"
          (int sent_msg_len ∷ int sent_length ∷ int ring.len ∷ [])))
        rc
  verify (compares_equal (memcmp ring.payload sent_msg sent_msg_len))
      ((message "Fail: Sent message got mangled\n" [])) rc

unfoldable pub inspect_ring_after_first_single_sendv :
    {W : Type 0} (src_domid src_aport : ℕ)
    → List ℕ
    → (sent_msg_len sent_msg_type : ℕ) → Test (World W) ℤ
inspect_ring_after_first_single_sendv src_domid src_aport sent_msg sent_msg_len sent_msg_type = do
  ring ← run (λ s. (s.1, s))
  inspect ring src_domid src_aport sent_msg sent_msg_len sent_msg_type

-- A ring of zeros; of what follows the header, nothing is read before Xen has written it.
abbrev pub zeros : Ring
zeros = record {
  rx_ptr = 0;
  tx_ptr = 0;
  len = 0;
  source_domain_id = 0;
  source_aport = 0;
  source_pad = 0;
  message_type = 0;
  payload = [];
}

unfoldable pub clear_test_ring : {W : Type 0} → Test (World W) (Unit {0})
clear_test_ring = run (λ s. (tt, (s.0, zeros)))
