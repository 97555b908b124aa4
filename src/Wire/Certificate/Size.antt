-- ===== src/Wire/Certificate/Size.antt =====
-- types/types.pb.go: Marshal and Size of Certificate.
use coded_hotterstuff.Wire.Signature.Size.{marshal_signature-HasSize}
use coded_hotterstuff.Wire.Signature.{size_signature, marshal_signature}
use coded_hotterstuff.Wire.Fields.Sized.{end-IsSized, message-IsSized, bytes-IsSized, HasSize}
use coded_hotterstuff.Wire.Fields.Written.{OrNil}
use coded_hotterstuff.Types.{Certificate, AggregatedSignature}
use coded_hotterstuff.Prelude.{none, arith, some, Option}
use coded_hotterstuff.Wire.Certificate.{size_certificate, marshal_certificate}
use coded_hotterstuff.Wire.Certificate.RoundTrip.{IsEncodable, SigEncodable}

sig-OrNil :
    (sig : Option AggregatedSignature)
    → SigEncodable sig
    → OrNil (HasSize marshal_signature size_signature) sig
sig-OrNil none e = tt
sig-OrNil (some s) e = marshal_signature-HasSize s e

pub marshal_certificate-HasSize :
    (c : Certificate) → IsEncodable c → HasSize marshal_certificate size_certificate c
unfolding marshal_certificate size_certificate
marshal_certificate-HasSize c e small =
    let whole =
      (bytes-IsSized 0x0a c.block _ _ (
          message-IsSized 0x12 c.sig marshal_signature size_signature _ _ (sig-OrNil c.sig e.sig)
            end-IsSized))
        small in
    omega (arith, whole)
