-- ===== src/Wire/Proposal.antt =====
-- types/types.pb.go: Marshal, Size and Unmarshal of Proposal.
pub mod RoundTrip
pub mod Size
use coded_hotterstuff.Wire.Timeout.{empty_timeout, timeout_field, size_timeout, marshal_timeout}
use coded_hotterstuff.Wire.Certificate.{
  empty_certificate, certificate_field, size_certificate, marshal_certificate,
}
use coded_hotterstuff.Wire.Data.{empty_data, data_field, size_data, marshal_data}
use coded_hotterstuff.Wire.Header.{empty_header, size_header, header_field, marshal_header}
use coded_hotterstuff.Wire.Fields.{
  skip_field, bytes_size, or_new, bytes_field, read_bytes_field, message_size, unmarshal,
  message_field,
}
use coded_hotterstuff.Prelude.Bytes.{Bytes}
use coded_hotterstuff.Types.{Proposal}
use coded_hotterstuff.Wire.Varint.{Result, ◌>>=◌, ok}
use coded_hotterstuff.Prelude.{length, some, ◌+◌, [], none, ℕ, ◌==◌, if◌then◌else◌}
use mathlib.Core.Option

unfoldable pub marshal_proposal : Proposal → Bytes
marshal_proposal v = message_field 0x0a (Option.map marshal_header v.header) (
    message_field 0x12 (Option.map marshal_data v.payload) (
      bytes_field 0x1a v.sig (
        message_field 0x22 (Option.map marshal_certificate v.parent_cert)
          (message_field 0x2a (Option.map marshal_timeout v.timeout) []))))

unfoldable pub size_proposal : Proposal → ℕ
size_proposal v =
    message_size (Option.map size_header v.header)
    + message_size (Option.map size_data v.payload)
    + bytes_size (length v.sig)
    + message_size (Option.map size_certificate v.parent_cert)
    + message_size (Option.map size_timeout v.timeout)

-- &types.Proposal{}
abbrev pub empty_proposal : Proposal
empty_proposal = record {
  header = none;
  payload = none;
  sig = [];
  parent_cert = none;
  timeout = none;
}

unfoldable pub proposal_field : Proposal → ℕ → ℕ → ℕ → Bytes → Bytes → Result (Proposal × Bytes)
proposal_field m l num wt bs from_tag =
    if num == 1
    then (do
      (b, rest) ← read_bytes_field l wt bs
      x ← unmarshal header_field (or_new empty_header m.header) b
      ok (record m { header = some x }, rest))
    else if num == 2
    then (do
      (b, rest) ← read_bytes_field l wt bs
      x ← unmarshal data_field (or_new empty_data m.payload) b
      ok (record m { payload = some x }, rest))
    else if num == 3
    then (do (b, rest) ← read_bytes_field l wt bs; ok (record m { sig = b }, rest))
    else if num == 4
    then (do
      (b, rest) ← read_bytes_field l wt bs
      x ← unmarshal certificate_field (or_new empty_certificate m.parent_cert) b
      ok (record m { parent_cert = some x }, rest))
    else if num == 5
    then (do
      (b, rest) ← read_bytes_field l wt bs
      x ← unmarshal timeout_field (or_new empty_timeout m.timeout) b
      ok (record m { timeout = some x }, rest))
    else (do rest ← skip_field l from_tag; ok (m, rest))

unfoldable pub unmarshal_proposal : Bytes → Result Proposal
unfolding proposal_field
unmarshal_proposal bs = unmarshal proposal_field empty_proposal bs
