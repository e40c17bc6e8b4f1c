-- ===== src/Protocol/Runs.antt =====
-- Runs of the headers.
use hyper_share.Prelude.{◌≡◌, [], ◌∷◌, arith}
use hyper_share.Protocol.Header.{MessageHeader, new_header, verify_checksum, IsInRange}
use hyper_share.Protocol.Header.Laws.{verify_checksum_blind}

abbrev header : MessageHeader
header = new_header 5 6 3 2

header-IsInRange : IsInRange header
unfolding new_header
header-IsInRange = omega arith

verify_checksum_blind_example :
    verify_checksum header (b'h' ∷ b'i' ∷ []) ≡ verify_checksum header (b'H' ∷ b'i' ∷ [])
verify_checksum_blind_example =
    verify_checksum_blind header b'h' b'H' (b'i' ∷ []) (omega arith) (omega arith)
