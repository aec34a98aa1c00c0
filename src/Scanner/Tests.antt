-- ===== src/Scanner/Tests.antt =====
-- A scan of a small payload, and the theorem at it.
use aismixer.Prelude.{false, none, some, List, [], ◌∷◌, ◌≡◌, refl, Text, codes, length}
use aismixer.Scanner.{ScanMatch, scan_nmea_sentences}
use aismixer.Scanner.Spans.{AreMatches, scan_nmea_sentences-AreMatches}

-- a TAG block, its sentence, and a sentence without one
abbrev payload : Text
payload = 92 ∷ 115 ∷ 92 ∷ codes "!AIVDM,1*2A!AIVDO,1*2A!BSVDM,*00"

payload-run :
    scan_nmea_sentences payload false
    ≡ some (
        record {
          sentence_span = record { start = 3; end = 14 };
          tag_span = some (record { start = 0; end = 3 });
        }
        ∷ record { sentence_span = record { start = 25; end = 35 }; tag_span = none }
        ∷ [])
unfolding scan_nmea_sentences
payload-run = refl

scan_nmea_sentences-AreMatches_example :
    (matches : List ScanMatch) × (scan_nmea_sentences payload false ≡ some matches)
    × AreMatches payload 0 (length payload) matches
scan_nmea_sentences-AreMatches_example = scan_nmea_sentences-AreMatches payload false
