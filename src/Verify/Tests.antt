-- ===== src/Verify/Tests.antt =====
-- A run of `verify` on a zone with one record.
use gentlsa.Prelude.{
  ℕ, Text, codes, List, [], ◌∷◌, ◌≡◌, ◌↔◌, refl, Bool, true, false, Option, some, none,
}
use gentlsa.Prelude.Int.{pos}
use gentlsa.Dns.{TlsaRecord, secure}
use gentlsa.Cert.{Crypto, Certificate}
use gentlsa.Verify.{Network, VerifyArgs, verify}
use gentlsa.Verify.Verdict.{Passes, verify_exit_zero}

abbrev plain : Crypto
plain = record {
  public_key = λ der. some der;
  sha256 = λ bytes. bytes;
  sha512 = λ bytes. bytes;
  hex_encode = λ bytes. bytes;
}

abbrev presented : Certificate
presented = record {
  der = codes "ab";
  chain_der = [];
  not_before_ts = pos 0;
  not_after_ts = pos 8640000;
}

abbrev published_record : TlsaRecord
published_record = record { usage = 3; selector = 1; matching = 1; certificate = codes "AB" }

abbrev net : Network
net = record {
  query =
      λ validate name. some (some (record { tlsa = some published_record; proof = secure } ∷ []));
  fetch_live = λ host port starttls zone. some presented;
  details = λ c. none;
  print_info = λ c. true;
  is_json = false;
  now = pos 86400;
}

abbrev args : VerifyArgs
args = record {
  zone = codes "x";
  port = 443;
  hostname = none;
  info = false;
  expiry = some (14, 7);
  dnssec_check = true;
  starttls = none;
  host_label = none;
  mx_dnssec = none;
}

verify_exit_zero_example : ((verify plain net args).exit ≡ 0) ↔ Passes plain net args
verify_exit_zero_example = verify_exit_zero plain net args

verifies : (verify plain net args).exit ≡ 0
unfolding verify gentlsa.Cert.candidates gentlsa.Cert.match_loop gentlsa.Cert.tlsa_association_data
    gentlsa.Cert.selected_data gentlsa.Cert.digested gentlsa.Prelude.lower
    gentlsa.Prelude.Int.div_euclid gentlsa.Prelude.Int.◌-ℤ◌
verifies = refl
