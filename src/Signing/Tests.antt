-- ===== src/Signing/Tests.antt =====
-- Two channels, one of which signs, and the theorems of the timestamps at concrete inputs.
use pq_key_establishment_mav.Base.{refl, [], ◌∷◌, replicate, true, false, none, some}
use pq_key_establishment_mav.Signing.{
  Channel, Signing, Outside, signing_key_magic, signing_time, update_signing_timestamp,
}
use pq_key_establishment_mav.Signing.Timestamps.{
  AllRaised, IsWorking, update_signing_timestamp-AllRaised,
}

abbrev outside : Outside
outside = record {
  soft_armed = false;
  signing_disabled = false;
  now = 40000;
  fits = true;
  read_block = true;
  write_block = λ old new. (true, new);
}

abbrev signing_channel : Channel
signing_channel = record {
  secret_key = replicate 32 7;
  link_id = 1;
  timestamp = 500;
  sign_outgoing = true;
  accept_unsigned = true;
  enabled = true;
}

abbrev vehicle : Signing
vehicle = record {
  channels = none ∷ some signing_channel ∷ [];
  stored = record { magic = signing_key_magic; timestamp = 100; secret_key = replicate 32 7 };
  last_signing_save_ms = 0;
}

outside-IsWorking : IsWorking outside vehicle
outside-IsWorking = record { fits = refl; reads = refl; magic = refl; writes = λ old new. refl }

update_signing_timestamp-AllRaised_example :
    AllRaised
      (signing_time 1700000000000000)
      vehicle.channels
      (update_signing_timestamp outside 1700000000000000 vehicle).channels
update_signing_timestamp-AllRaised_example =
    update_signing_timestamp-AllRaised outside 1700000000000000 vehicle
