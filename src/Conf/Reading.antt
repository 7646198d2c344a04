-- ===== src/Conf/Reading.antt =====
-- src/conf.c: parse_firewall_ruleset and config_read, on the lines that fgets gives. A line has what
-- the buffer holds behind its terminator, from the lines before.
use nodogsplash.Prelude.{
  Bool, List, Option, [], false, if◌then◌else◌, length, none, not, some, suc, zero, ℕ, ◌&&◌, ◌==◌,
  ◌∷◌,
}
use nodogsplash.CString.{CString}
use nodogsplash.Conf.Apply.{apply_option}
use nodogsplash.Conf.DebugLevel.{is_space}
use nodogsplash.Conf.Lines.{
  drop_until, is_blank, skip_blanks, strip_comment, strip_whitespace, take_until,
}
use nodogsplash.Conf.Options.{Opcode, Settings, config_parse_opcode, find_keyword}
use nodogsplash.Conf.Rulesets.{Ruleset, get_ruleset, parse_firewall_rule}
use nodogsplash.World.{Env}

pub record Buffer : Type 0 where
  pub bytes : CString
  pub stale : CString

-- Where a word ends: at the end of the line, or before the argument.
unfoldable pub argument_of : CString → Option CString
unfolding skip_blanks
argument_of [] = none
argument_of (c ∷ s) = some (skip_blanks s)

-- What a line of a ruleset does: it ends it, leaves rulesets, or ends the program.
pub data RulesetLine : Type 0 where
  ends : RulesetLine
  keeps : List Ruleset → RulesetLine
  fails : RulesetLine

unfoldable pub after_rule : Option (List Ruleset) → RulesetLine
after_rule none = fails
after_rule (some rs) = keeps rs

unfoldable pub rule_line : List Ruleset → CString → CString → Option CString → RulesetLine
unfolding after_rule parse_firewall_rule find_keyword
rule_line rs name word none = fails
rule_line rs name word (some arg) = elim (config_parse_opcode word) [
  | Opcode.firewall_rule ↦ after_rule (parse_firewall_rule rs name arg)
  | _ ↦ fails
]

unfoldable pub ruleset_line : List Ruleset → CString → CString → RulesetLine
unfolding rule_line argument_of take_until drop_until is_blank
ruleset_line rs name [] = keeps rs
ruleset_line rs name (c ∷ s) =
    if c == b'}'
    then ends
    else rule_line rs name (take_until is_blank (c ∷ s)) (argument_of (drop_until is_blank (c ∷ s)))

-- The loop over the lines; with the rulesets it returns the lines that are left.
unfoldable pub read_rules :
    List Ruleset → CString → List Buffer → Option (List Ruleset × List Buffer)
unfolding ruleset_line strip_whitespace
read_rules rs name [] = some (rs, [])
read_rules rs name (line ∷ lines) = elim (ruleset_line rs name (strip_whitespace line.bytes)) [
  | ends ↦ some (rs, lines)
  | keeps rs' ↦ read_rules rs' name lines
  | fails ↦ none
]

unfoldable pub parse_firewall_ruleset :
    List Ruleset → CString → List Buffer → Option (List Ruleset × List Buffer)
unfolding read_rules take_until is_blank
parse_firewall_ruleset rs arg lines =
    let name = take_until is_blank arg in
    elim (get_ruleset rs name) [ none ↦ none | some r ↦ read_rules rs name lines ]

-- What the buffer holds behind the stripped line: a NUL if white space was cut there, the comment
-- if it stood right there, or what an earlier line left.
comment_text : ℕ → CString → CString → CString
comment_text prev [] stale = stale
comment_text prev (c ∷ s) stale =
    if c == b'#' && not (prev == b'\\') then s else comment_text c s stale

ends_in_space : CString → Bool
unfolding is_space
ends_in_space [] = false
ends_in_space (c ∷ []) = is_space c
ends_in_space (c ∷ d ∷ s) = ends_in_space (d ∷ s)

pub behind_line : Buffer → CString
unfolding comment_text ends_in_space strip_comment
behind_line line =
    if ends_in_space (strip_comment 0 line.bytes) then [] else comment_text 0 line.bytes line.stale

-- What a line of the file does: it leaves a configuration, begins a ruleset, or ends the program.
pub data FileLine : Type 0 where
  sets : Settings → FileLine
  begins : CString → FileLine
  exits : FileLine

unfoldable pub after_option : Option Settings → FileLine
after_option none = exits
after_option (some s) = sets s

module _ (env : Env) (executable : CString → Bool) where
  unfoldable pub option_line : CString → Settings → Opcode → Option CString → FileLine
  unfolding after_option apply_option
  option_line behind s op none = exits
  option_line behind s op (some arg) = elim op [
    | Opcode.firewall_ruleset ↦ begins arg
    | other ↦ after_option (apply_option env executable behind s other arg)
  ]

  -- The option ends at white space of any kind.
  unfoldable pub file_line : CString → Settings → CString → FileLine
  unfolding option_line argument_of take_until drop_until is_space find_keyword
  file_line behind s [] = sets s
  file_line behind s (c ∷ t) =
      option_line behind s (config_parse_opcode (take_until is_space (c ∷ t)))
        (argument_of (drop_until is_space (c ∷ t)))

  unfoldable pub config_line : Settings → Buffer → FileLine
  unfolding file_line behind_line strip_whitespace
  config_line s line = file_line (behind_line line) s (strip_whitespace line.bytes)

-- The end of the file, exit, or too little fuel.
pub data Reading : Type 0 where
  done : Settings → Reading
  exited : Reading
  out_of_fuel : Reading

module _ (env : Env) (executable : CString → Bool) where
  unfoldable pub read_lines : ℕ → Settings → List Buffer → Reading
  unfolding config_line parse_firewall_ruleset
  read_lines zero s lines = out_of_fuel
  read_lines (suc fuel) s [] = done s
  read_lines (suc fuel) s (line ∷ lines) = elim (config_line env executable s line) [
    | sets s' ↦ read_lines fuel s' lines
    | begins arg ↦ elim (parse_firewall_ruleset s.rulesets arg lines) [
      | none ↦ exited
      | some (rs, rest) ↦ read_lines fuel (record s { rulesets = rs }) rest
    ]
    | exits ↦ exited
  ]

  -- `none` is a file that cannot be opened. Every round reads a line, and the last one the end.
  unfoldable pub config_read : Settings → Option (List Buffer) → Reading
  unfolding read_lines
  config_read s none = exited
  config_read s (some lines) = read_lines (suc (length lines)) s lines
