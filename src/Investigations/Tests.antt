-- ===== src/Investigations/Tests.antt =====
-- Concrete investigations, on which the theorems about them are applied.
use wdc_backend.Prelude.{
  ℕ, zero, suc, Uuid, Timestamp, String, ◌≡◌, refl, false, Option, none, some, List, [], ◌∷◌, map,
  sort_by, has_char, is_empty, ◌==◌, if◌then◌else◌, arith,
}
use Prim.Native.Char.{code}
use Prim.Native.String.{String as Text}
use wdc_backend.Rls.{RlsContext, director}
use wdc_backend.Database.{ok}
use wdc_backend.Database.{failure}
use wdc_backend.Handler.{Draw, World, as_director}
use wdc_backend.Handler.Laws.{IsAudited}
use wdc_backend.Investigations.{
  InvestigationRow, Tables, opened, normal, note, to_investigation_view,
}
use wdc_backend.Investigations.Evidence.{EvidenceArgs}
use wdc_backend.Investigations.Cursor.{
  Codec, IsCodec, encode_cursor, decode_cursor, decode_cursor-encode_cursor,
}
use wdc_backend.Investigations.Pages.{newest_first}
use wdc_backend.Investigations.Walk.{walk, walk-all}
use wdc_backend.Investigations.Timeline.{timeline, Shows, timeline-Shows, added_entry}
use wdc_backend.Investigations.Calls.{
  Operation, close_case, reopen_case, add, run_call, run_calls, run_call-IsAudited,
}
use wdc_backend.Investigations.Intact.{IsIntact, run_calls-IsIntact}
use wdc_backend.Investigations.Stays.{Stays, run_calls-Stays}
use wdc_backend.Investigations.Dated.{AllDated, is_dated, run_calls-AllDated}

-- Numbers as rows of strokes before a letter.
abbrev strokes : ℕ → String
strokes zero = "T"
strokes (suc n) = Text.◌∷◌ "1" (strokes n)

abbrev count_strokes : String → Option ℕ
count_strokes Text.[] = none
count_strokes (Text.◌∷◌ c s) =
    let rest = count_strokes s in
    if code c == b'T' then some 0 else elim rest [ none ↦ none | some n ↦ some (suc n) ]

count_strokes-strokes : (n : ℕ) → count_strokes (strokes n) ≡ some n
count_strokes-strokes zero = refl
count_strokes-strokes (suc n) = ground (arith, count_strokes-strokes n)

strokes_barless : (n : ℕ) → has_char b'|' (strokes n) ≡ false
strokes_barless zero = refl
strokes_barless (suc n) = strokes_barless n

strokes_filled : (n : ℕ) → is_empty (strokes n) ≡ false
strokes_filled zero = refl
strokes_filled (suc n) = refl

abbrev a_codec : Codec
a_codec = record {
  base64url = λ s. s;
  from_base64url = λ s. s;
  to_iso = strokes;
  parse_date = count_strokes;
  uuid_text = strokes;
  parse_uuid = count_strokes;
}

a_codec-IsCodec : IsCodec a_codec
a_codec-IsCodec = record {
  base64 = λ s. refl;
  base64_filled = λ s h. h;
  dates = count_strokes-strokes;
  uuids = count_strokes-strokes;
  dates_barless = strokes_barless;
  dates_filled = strokes_filled;
  uuids_barless = strokes_barless;
  uuids_filled = strokes_filled;
}

abbrev a_director : RlsContext
a_director = record { user_id = some 5; role = director; lga_id = none; ward_id = none }

abbrev a_case : Uuid → Timestamp → InvestigationRow
a_case id at = record {
  id = id;
  title = "Missing kits";
  summary = none;
  status = opened;
  priority = normal;
  opened_by = 5;
  closed_at = none;
  created_at = at;
  updated_at = at;
}

abbrev three_cases : World Tables
three_cases = record {
  tables = record {
    users = 5 ∷ [];
    investigations = a_case 1 4500 ∷ a_case 2 9000 ∷ a_case 3 7200 ∷ [];
    evidence = [];
  };
  audit = [];
}

abbrev a_draw : Draw
a_draw = record { id = 8; now = 12000; logged_at = 12500; append_fails = none }

abbrev a_note : EvidenceArgs
a_note = record {
  kind = note;
  ref_table = none;
  ref_id = none;
  note = some "seen";
  request_id = none;
}

abbrev the_calls : List (Draw × RlsContext × Operation)
the_calls =
    (a_draw, a_director, close_case 2 none)
    ∷ (a_draw, a_director, add 2 a_note)
    ∷ (a_draw, a_director, reopen_case 2 none)
    ∷ []

three_cases-IsIntact : IsIntact three_cases.tables
three_cases-IsIntact = record { cases = (refl, (refl, (refl, tt))); pieces = tt; owned = tt }

decode_cursor-encode_cursor_example :
    decode_cursor a_codec (encode_cursor a_codec (record { created_at = 4; id = strokes 1 }))
    ≡ some (record { created_at = 4; id = strokes 1 })
decode_cursor-encode_cursor_example = decode_cursor-encode_cursor a_codec 4 1 a_codec-IsCodec

walk-all_example :
    walk a_codec a_director (some 1) 4 none three_cases
    ≡ some (map to_investigation_view (sort_by newest_first three_cases.tables.investigations))
walk-all_example =
    walk-all a_codec a_director (some 1) 4 three_cases a_codec-IsCodec refl (omega arith)
      ((omega arith, (omega arith, tt)), ((omega arith, tt), (tt, tt))) (omega arith)

-- A draw under which the append of the event raises.
abbrev a_failing_draw : Draw
a_failing_draw = record a_draw { append_fails = some (failure "connection lost") }

run_call-IsAudited_example :
    IsAudited
      (some (failure "connection lost"))
      a_director
      three_cases
      (run_call strokes a_failing_draw a_director (close_case 2 none) three_cases)
    × ((run_call strokes a_failing_draw a_director (close_case 2 none) three_cases).1.tables
        ≡ (run_call strokes a_draw a_director (close_case 2 none) three_cases).1.tables)
run_call-IsAudited_example =
    run_call-IsAudited strokes a_failing_draw a_director (close_case 2 none) three_cases

run_calls-IsIntact_example : IsIntact (run_calls strokes the_calls three_cases).tables
run_calls-IsIntact_example = run_calls-IsIntact strokes the_calls three_cases three_cases-IsIntact

run_calls-Stays_example : Stays 2 5 9000 (run_calls strokes the_calls three_cases).tables
run_calls-Stays_example = run_calls-Stays 2 5 9000 strokes the_calls three_cases refl

three_cases-AllDated : AllDated three_cases.tables
unfolding is_dated
three_cases-AllDated = (refl, (refl, (refl, tt)))

run_calls-AllDated_example : AllDated (run_calls strokes the_calls three_cases).tables
run_calls-AllDated_example =
    run_calls-AllDated strokes the_calls three_cases (tt, (tt, (tt, tt))) three_cases-AllDated

abbrev with_piece : World Tables
with_piece = record three_cases {
  tables = record three_cases.tables {
    evidence =
        record {
          id = 8;
          investigation_id = 2;
          kind = note;
          ref_table = none;
          ref_id = none;
          note = some "seen";
          added_by = 5;
          created_at = 12000;
        }
        ∷ [];
  };
}

timeline_run :
    timeline a_director 2 with_piece ≡ (ok (map added_entry with_piece.tables.evidence), with_piece)
unfolding timeline as_director
timeline_run = refl

timeline-Shows_example : Shows 2 with_piece (map added_entry with_piece.tables.evidence)
timeline-Shows_example = timeline-Shows a_director 2 with_piece with_piece _ timeline_run
