-- ===== src/Tests/RaceCases.antt =====
-- Callers of the commands of module/dysk_bdd.c, at the same time.
use dysk.Base.{codes, pos, refl, true, ◌≡◌}
use dysk.Text.{strncmp_eq}
use dysk.Def.{device_name_len}
use dysk.Def.Parse.{pad_to}
use dysk.Registry.Names.{Unique}
use dysk.Registry.Race.{Answers, Shared, Reach, mounts, unmounts, returns, faults}
use dysk.Registry.Race.Together.{mounts_race, unmounts_race}
use dysk.Tests.CommandCases.{named, two_dysks, hooked, two_dysks-Unique, c_not_mounted, b_mounted}

abbrev good_answers : Answers
good_answers = record { az_init = pos 0; io_hook = hooked }

same_name :
    strncmp_eq
      (named (codes "c")).def.device_name
      (named (codes "c")).def.device_name
      device_name_len
    ≡ true
unfolding strncmp_eq
same_name = refl

mounts_race_example :
    (s : Shared) × Reach
      (record {
        first = mounts (named (codes "c"));
        second = mounts (named (codes "c"));
        reg = two_dysks;
      })
      s
    × (s.first ≡ returns (pos 0))
    × (s.second ≡ returns (pos 0))
    × (¬ Unique s.reg.list)
mounts_race_example =
    mounts_race (named (codes "c")) (named (codes "c")) good_answers good_answers two_dysks
      same_name c_not_mounted (refl, refl) (refl, refl)

unmounts_race_example :
    let name = pad_to device_name_len (codes "b") in
    (s : Shared) × Reach
      (record { first = unmounts name; second = unmounts name; reg = two_dysks })
      s
    × (s.first ≡ returns (pos 0))
    × (s.second ≡ faults)
unmounts_race_example =
    unmounts_race (pad_to device_name_len (codes "b")) (named (codes "b")) good_answers two_dysks
      two_dysks-Unique b_mounted
