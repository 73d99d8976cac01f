-- ===== src/AppData/Tests.antt =====
-- A sink that is fed two segments of three bytes in all.
use reliable_data_transfer.Base.{List, [], ◌∷◌, some, ◌≡◌, refl, arith, true, length, take}
use reliable_data_transfer.Packet.{PacketCoreData}
use reliable_data_transfer.DataManagers.{DataSink, new_sink, set_sink_file}
use reliable_data_transfer.DataManagers.Draining.{contents}
use reliable_data_transfer.DataManagers.Sinking.{Holds, set_sink_file-Holds}
use reliable_data_transfer.AppData.{get_buff}
use reliable_data_transfer.AppData.Buffering.{feed_all, get_buff-feed_all}

abbrev sink : DataSink
sink = set_sink_file true new_sink []

abbrev cores : List PacketCoreData
cores = record { size = 2; payload = 5 ∷ 6 ∷ [] } ∷ record { size = 1; payload = 7 ∷ 0 ∷ [] } ∷ []

get_buff-feed_all_example :
    (sink' : DataSink) × (feed_all sink cores 0 ≡ some sink')
    × (get_buff sink'
        ≡ some (record { payload = contents cores; len_data = length (contents cores) }))
    × Holds (contents cores) sink'
unfolding contents set_sink_file new_sink take
get_buff-feed_all_example =
    get_buff-feed_all sink cores 0 (set_sink_file-Holds new_sink []) refl
      ((omega arith, omega arith), ((omega arith, omega arith), tt)) (omega arith)
