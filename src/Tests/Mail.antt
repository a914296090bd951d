-- ===== src/Tests/Mail.antt =====
-- A mail with one header and two lines of body, in a block with an offset.
use fdm.Mail.{
  line_init, line_length, Mail, contents, find_body, count_lines, find_header, header_from,
}
use fdm.Mail.Lines.{
  IsMail, split_lines, body_offset, body_count, find_body-body_offset, count_lines-length,
}
use fdm.Mail.Trim.{trim_from-body_offset}
use fdm.Mail.Store.{trim_from, append_line}
use fdm.Mail.Insert.{Inserted, insert_header-Inserted}
use fdm.Mail.Store.{newline_run, insert_place, insert_header}
use fdm.Mail.Append.{IsHuge, Appended, append_line-Appended}
use fdm.Outcome.{ok, Ends}
use fdm.Prelude.{
  ℕ, ◌+◌, ◌%◌, ◌≤◌, ◌≡◌, refl, Bool, true, some, [], ◌∷◌, ◌++◌, arith, length, drop, codes, u32_mod,
  memchr, starts_with_case, starts_with,
}

abbrev letter : Mail
letter = record {
  base = 0 ∷ codes "A: b\n\nhi\nyou\n" ++ (0 ∷ 0 ∷ []);
  space = 16;
  off = 1;
  size = 13;
  body = 0;
  wrapped = [];
  wrapchar = 0;
}

letter-IsMail : IsMail letter
letter-IsMail = record { block = refl; room = omega arith; bounded = omega arith }

abbrev unlimited : ℕ → Bool
unlimited n = true

find_body-body_offset_example :
    find_body letter ≡ ok (body_offset 0 (split_lines (contents letter)))
find_body-body_offset_example = find_body-body_offset letter letter-IsMail

count_lines-length_example :
    count_lines letter
    ≡ ok (
      length (split_lines (contents letter)) % u32_mod,
      body_count (split_lines (contents letter)) % u32_mod,
    )
count_lines-length_example = count_lines-length letter letter-IsMail (λ e. ground arith)

append_line-Appended_example :
    Ends
      (IsHuge (1 + (13 + 3 + 1)))
      (Appended unlimited letter (codes "bye"))
      (append_line unlimited letter (codes "bye"))
append_line-Appended_example =
    append_line-Appended unlimited letter (codes "bye") letter-IsMail (omega arith) (omega arith)

-- A mail with a From line, one header and a body.
abbrev from_letter : Mail
from_letter = record {
  base = codes "From me\nA: b\n\nhi\n" ++ (0 ∷ 0 ∷ []);
  space = 19;
  off = 0;
  size = 17;
  body = 14;
  wrapped = [];
  wrapchar = 0;
}

from_letter-body : 14 ≡ body_offset 0 (split_lines (contents from_letter))
unfolding body_offset split_lines
from_letter-body = refl

trim_from-body_offset_example :
    IsMail (trim_from from_letter)
    × ((trim_from from_letter).body ≤ (trim_from from_letter).size)
    × (contents (trim_from from_letter)
        ≡ drop (line_length (contents from_letter)) (contents from_letter))
    × ((trim_from from_letter).body
        ≡ body_offset 0 (split_lines (contents (trim_from from_letter))))
unfolding starts_with
trim_from-body_offset_example =
    trim_from-body_offset from_letter
      (record { block = refl; room = omega arith; bounded = omega arith }) (omega arith)
      from_letter-body

-- The same mail with its body found.
abbrev found_letter : Mail
found_letter = record letter { body = 6 }

found_letter-place : insert_place found_letter (some (codes "a")) ≡ ok (some (0, 1))
unfolding insert_place find_header header_from starts_with_case line_init line_length memchr
found_letter-place = refl

insert_header-Inserted_example :
    Ends
      (IsHuge (1 + (13 + (4 + 1))))
      (Inserted unlimited found_letter 0 (codes "R: 1" ++ newline_run 1))
      (insert_header unlimited found_letter (some (codes "a")) (codes "R: 1"))
insert_header-Inserted_example =
    insert_header-Inserted unlimited found_letter (some (codes "a")) (codes "R: 1") 0 1
      (record { block = refl; room = omega arith; bounded = omega arith }) (omega arith)
      found_letter-place (omega arith) (omega arith)
