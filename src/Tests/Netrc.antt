-- ===== src/Tests/Netrc.antt =====
-- A file with the entries of two machines.
use fdm.Netrc.{lookup}
use fdm.Netrc.Ends.{Returns, lookup-Returns}
use fdm.Netrc.Entries.{Account, IsEntry, netrc, first_of, lookup-first_of}
use fdm.Outcome.{ok}
use fdm.Prelude.{◌≡◌, refl, true, some, List, [], ◌∷◌, arith, All, codes, bytes_eq}

abbrev entries : List Account
entries =
    record { name = codes "a"; user = codes "me"; pass = codes "x" }
    ∷ record { name = codes "b"; user = codes "you"; pass = codes "y" }
    ∷ []

entries-IsEntry : All (IsEntry 1024) entries
unfolding bytes_eq
entries-IsEntry = (
  record {
    name = record {
      has_bytes = omega arith;
      plain = ((refl, refl, refl), tt);
      short = omega arith;
    };
    user = record {
      has_bytes = omega arith;
      plain = ((refl, refl, refl), ((refl, refl, refl), tt));
      short = omega arith;
    };
    pass = record {
      has_bytes = omega arith;
      plain = ((refl, refl, refl), tt);
      short = omega arith;
    };
    no_machine = (refl, refl);
    no_default = (refl, refl);
    no_password = refl;
  },
  (
    record {
      name = record {
        has_bytes = omega arith;
        plain = ((refl, refl, refl), tt);
        short = omega arith;
      };
      user = record {
        has_bytes = omega arith;
        plain = ((refl, refl, refl), ((refl, refl, refl), ((refl, refl, refl), tt)));
        short = omega arith;
      };
      pass = record {
        has_bytes = omega arith;
        plain = ((refl, refl, refl), tt);
        short = omega arith;
      };
      no_machine = (refl, refl);
      no_default = (refl, refl);
      no_password = refl;
    },
    tt,
  ),
)

lookup-first_of_example :
    lookup 1024 true true (codes "b") (netrc entries)
    ≡ ok (true, some (codes "you"), some (codes "y"))
unfolding first_of bytes_eq
lookup-first_of_example = lookup-first_of 1024 (omega arith) (codes "b") entries entries-IsEntry

lookup-Returns_example : Returns 1024 (lookup 1024 true true (codes "b") (netrc entries))
lookup-Returns_example = lookup-Returns 1024 true true (codes "b") (netrc entries)
