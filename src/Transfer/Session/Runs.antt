-- ===== src/Transfer/Session/Runs.antt =====
-- A download of five bytes in two chunks of four bytes at most.
use hyper_share.Prelude.{◌≤◌, ◌≡◌, ◌≢◌, refl, true, false, [], ◌∷◌, arith}
use hyper_share.Wire.{Bytes}
use hyper_share.Storage.Metadata.{FileMetadata, total_chunks}
use hyper_share.Storage.Metadata.Layout.{IsLaidOut}
use hyper_share.Transfer.Bits.{bit_at, no_bits, count}
use hyper_share.Transfer.Session.{
  TransferSession, success, new_session, start_transfer, is_chunk_requested, request_next_chunks,
  expected_size, validate_chunk, accept_chunk, handle_chunk_received, is_complete, can_request,
}
use hyper_share.Transfer.Session.Round.{IsSized}
use hyper_share.Transfer.Session.Requests.{RequestDone, request_next_chunks-RequestDone}
use hyper_share.Transfer.Session.Accounting.{
  IsAccounted, IsAcceptable, handle_chunk_received-IsAcceptable, handle_chunk_received-IsAccounted,
}
use hyper_share.Transfer.Session.Complete.{
  Download, started, requests, arrives, Download-IsAccounted, Download-is_complete,
}

-- Stands for the hash function; no hash is in the metadata.
abbrev no_hash : Bytes → Bytes
no_hash data_bytes = []

abbrev small_file : FileMetadata
small_file = record {
  file_id = b'f' ∷ [];
  file_hash = [];
  filename = b'f' ∷ [];
  file_path = [];
  file_size = 5;
  created_at = 0;
  modified_at = 0;
  chunk_hashes = [];
  chunk_size = 4;
  chunk_count = 2;
  file_type = [];
  description = [];
  tags = [];
}

small_file-IsLaidOut : IsLaidOut small_file
unfolding total_chunks
small_file-IsLaidOut = record {
  chunk_size_pos = omega arith;
  size_range = omega arith;
  counted = refl;
}

abbrev new : TransferSession
new = new_session (b's' ∷ []) (b'f' ∷ []) 3 small_file

abbrev s0 : TransferSession
s0 = start_transfer small_file 1 new

abbrev s1 : TransferSession
s1 = (request_next_chunks 2 8 s0).0

abbrev s2 : TransferSession
s2 = (handle_chunk_received no_hash 0 (1 ∷ 2 ∷ 3 ∷ 4 ∷ []) s1).0

abbrev s3 : TransferSession
s3 = (handle_chunk_received no_hash 1 (5 ∷ []) s2).0

s1_new : bit_at s1.received_chunks 0 ≡ false
unfolding start_transfer request_next_chunks no_bits
s1_new = refl

s2_new : bit_at s2.received_chunks 1 ≡ false
unfolding start_transfer request_next_chunks no_bits handle_chunk_received is_chunk_requested
    accept_chunk validate_chunk expected_size
s2_new = refl

s3_complete : is_complete s3 ≡ true
unfolding start_transfer request_next_chunks no_bits handle_chunk_received is_chunk_requested
    accept_chunk validate_chunk expected_size is_complete count
s3_complete = refl

s1-Download : Download no_hash small_file s1
s1-Download = requests 2 8 s0 (started 1 new)

s3-Download : Download no_hash small_file s3
s3-Download = arrives 1 (5 ∷ []) s2 (arrives 0 (1 ∷ 2 ∷ 3 ∷ 4 ∷ []) s1 s1-Download s1_new) s2_new

Download-is_complete_example : s3.bytes_transferred ≡ 5
Download-is_complete_example =
    Download-is_complete no_hash small_file small_file-IsLaidOut s3 s3-Download s3_complete

s0-IsSized : IsSized s0
unfolding start_transfer no_bits
s0-IsSized = record { requested_size = refl; chunks_fit = omega arith }

s0_can_request : can_request s0.state ≡ true
unfolding start_transfer
s0_can_request = refl

s0_cursor : s0.next_chunk_to_request ≤ s0.metadata.chunk_count
unfolding start_transfer
s0_cursor = omega arith

request_next_chunks-RequestDone_example : RequestDone s0 8 (request_next_chunks 2 8 s0)
request_next_chunks-RequestDone_example =
    request_next_chunks-RequestDone 2 8 s0 s0-IsSized s0_can_request s0_cursor

s1-IsAccounted : IsAccounted no_hash s1
s1-IsAccounted = Download-IsAccounted no_hash small_file s1 s1-Download

handle_chunk_received-IsAccounted_example : IsAccounted no_hash s2
handle_chunk_received-IsAccounted_example =
    handle_chunk_received-IsAccounted no_hash 0 (1 ∷ 2 ∷ 3 ∷ 4 ∷ []) s1 s1-IsAccounted s1_new

wrong_size : (handle_chunk_received no_hash 0 (9 ∷ []) s1).1 ≢ success
unfolding start_transfer request_next_chunks no_bits handle_chunk_received is_chunk_requested
    accept_chunk validate_chunk expected_size
wrong_size e = ground arith

right_size : (handle_chunk_received no_hash 0 (1 ∷ 2 ∷ 3 ∷ 4 ∷ []) s1).1 ≡ success
unfolding start_transfer request_next_chunks no_bits handle_chunk_received is_chunk_requested
    accept_chunk validate_chunk expected_size
right_size = refl

handle_chunk_received-IsAcceptable_example : IsAcceptable no_hash 0 (1 ∷ 2 ∷ 3 ∷ 4 ∷ []) s1
handle_chunk_received-IsAcceptable_example =
    handle_chunk_received-IsAcceptable no_hash 0 (1 ∷ 2 ∷ 3 ∷ 4 ∷ []) s1 right_size

again : (handle_chunk_received no_hash 0 (1 ∷ 2 ∷ 3 ∷ 4 ∷ []) s2).1 ≡ success
unfolding start_transfer request_next_chunks no_bits handle_chunk_received is_chunk_requested
    accept_chunk validate_chunk expected_size
again = refl

s2_old : bit_at s2.received_chunks 0 ≡ true
unfolding start_transfer request_next_chunks no_bits handle_chunk_received is_chunk_requested
    accept_chunk validate_chunk expected_size
s2_old = refl

-- A file of 1025 chunks, all of the first 1024 behind the cursor.
abbrev large_file : FileMetadata
large_file = record small_file { file_size = 4100; chunk_count = 1025 }

abbrev at_the_end : TransferSession
at_the_end = record (start_transfer large_file 1 new) { next_chunk_to_request = 1024 }

at_the_end_can_request : can_request at_the_end.state ≡ true
unfolding start_transfer
at_the_end_can_request = refl
