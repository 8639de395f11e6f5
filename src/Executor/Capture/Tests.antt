-- ===== src/Executor/Capture/Tests.antt =====
-- executor.py, `StructuredCapture`: two builds whose lines interleave, one of which fails.
use nixbot.Prelude.{◌≡◌, refl, false, none, some, List, [], ◌∷◌, get, put, string_eq, nat_eq}
use nixbot.Executor.Capture.{
  Scraper, Call, started, result_line, stop, failed, new_capture, call, call_all, drv_display_name,
  start_build, register_drv, log_line, take_line, stop_build, mark_failed, set_status,
}
use nixbot.Executor.Capture.Positions.{position}
use nixbot.Executor.Capture.Indexed.{call_all-position}
use nixbot.Prelude.Prefixes.{remove_suffix, behind_char}
use nixbot.Prelude.Texts.{rpartition}

abbrev scraper : Scraper
scraper = record {
  is_phase_echo = λ text. false;
  plain_lines = λ text. [];
  failed_drvs = λ line. [];
  cannot_build = λ line. none;
  elided = λ n. "lines elided";
}

abbrev calls : List Call
calls =
    started 7 "/nix/store/abc-a.drv"
    ∷ started 8 "/nix/store/def-b.drv"
    ∷ result_line 8 "hello" 3
    ∷ stop 8 4
    ∷ failed "/nix/store/abc-a.drv"
    ∷ []

call_all-position_example :
    get (call_all scraper calls (new_capture 10)).idx "/nix/store/def-b.drv"
    ≡ position "/nix/store/def-b.drv" (call_all scraper calls (new_capture 10)).w.drvs
call_all-position_example = call_all-position scraper 10 calls "/nix/store/def-b.drv"

-- The second derivation stands behind the root and the first one.
second_index : get (call_all scraper calls (new_capture 10)).idx "/nix/store/def-b.drv" ≡ some 2
unfolding call_all call start_build register_drv log_line take_line stop_build mark_failed
    set_status get put
second_index = refl

display_name : drv_display_name "/nix/store/abc-a.drv" ≡ "a"
unfolding drv_display_name remove_suffix behind_char rpartition
display_name = refl
