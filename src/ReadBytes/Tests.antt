-- ===== src/ReadBytes/Tests.antt =====
-- Three segments and an interruption, and the theorems at them.
use ece.Prelude.{Bytes, refl, arith, List, ◌%◌, ◌^◌, take, drop, length, [], ◌∷◌, some, ◌≡◌}
use ece.ReadBytes.{read_loop, Arrival, Result, readnbytes, receive}
use ece.ReadBytes
use ece.ReadBytes.Client
use ece.ReadBytes.RoundTrip.{main-file, connected, serving}
use ece.ReadBytes.Whole.{readnbytes-take, stream}

abbrev arrivals : List Arrival
arrivals =
    Arrival.segment 1 (2 ∷ 3 ∷ [])
    ∷ Arrival.interrupted
    ∷ Arrival.segment 4 []
    ∷ Arrival.segment 5 (6 ∷ [])
    ∷ []

readnbytes-take_example :
    ((readnbytes 5 arrivals).result ≡ Result.returned (length (take 5 (stream arrivals))))
    × ((readnbytes 5 arrivals).buffer ≡ take 5 (stream arrivals))
    × (stream (readnbytes 5 arrivals).rest ≡ drop 5 (stream arrivals))
readnbytes-take_example = readnbytes-take 5 arrivals tt

five : (readnbytes 5 arrivals).buffer ≡ 1 ∷ 2 ∷ 3 ∷ 4 ∷ 5 ∷ []
unfolding readnbytes read_loop
five = refl

abbrev sent_file : Bytes
sent_file = 1 ∷ 2 ∷ 3 ∷ 4 ∷ 5 ∷ 6 ∷ []

abbrev write_all : Client.Write
write_all sent piece = some (length piece)

arrive : stream arrivals ≡ (Client.main 7 connected write_all sent_file).0
unfolding stream Client.main Client.send_loop Client.send_piece Client.after_write
arrive = refl

main-file_example :
    (Client.main 7 connected write_all sent_file
      ≡ (sent_file, Client.End.finished (length sent_file % 2 ^ 32)))
    × (ReadBytes.main 7 serving arrivals
        ≡ ReadBytes.End.finished sent_file (length sent_file % 2 ^ 32))
main-file_example =
    main-file 7 7 write_all sent_file arrivals (λ sent piece. refl) tt (omega arith) (omega arith)
      arrive
