-- ===== src/Session/Extract/Selection.antt =====
-- What an extraction selects, `extractCapturedTransactions` of cli/record_proxify.go: the lines
-- of the section, told apart by one verdict each.
use http_capture.Prelude.{
  eq_int, leb_int, ◌&&◌, ◌||◌, str_eq, trim_space, if◌then◌else◌, pos, Bool, ℕ, ◌+◌, Bytes, List,
  [], ◌∷◌, ◌++◌, Option, some, none, ◌≡◌, refl, ap, ◌∙◌, sym, arith, append-nil, append_assoc,
  length, ℤ, str_eq_refl, Option-cases, ◌≢◌, ◌==◌, Bool-cases, inl, inr,
}
use http_capture.Effects.{ok, ◌>>=◌}
use http_capture.Captured.{CapturedTransaction, capture_schema_version, client_address_matches}
use http_capture.World.{World, Env, find_file, system}
use http_capture.Session.Extract.{
  judge_record, lines_of, grow, Verdict, blank, skipped, wanted, Window, judge, Extract, add_line,
  extract_lines, no_lines, section, offset_of, open_content, content_or_missing, finish_file,
  extract_captured_transactions,
}

unfoldable pub concat : List Bytes → Bytes
concat [] = []
concat (line ∷ lines) = line ++ concat lines

grow-concat : (c : ℕ) (lines : List Bytes) → concat (grow c lines) ≡ c ∷ concat lines
unfolding concat grow
grow-concat c [] = refl
grow-concat c (line ∷ lines) = refl

lines_of-concat : (s : Bytes) → concat (lines_of s) ≡ s
unfolding concat lines_of
lines_of-concat [] = refl
lines_of-concat (c ∷ s) = elim (Bool-cases (c == b'\n')) [
  | inl end ↦ simp (end, lines_of-concat s)
  | inr inside ↦ simp (inside, grow-concat c (lines_of s), lines_of-concat s)
]

-- A record belongs to a session: it has the schema of the program, a time in the closed interval
-- of the session, and, if the session has a client, its address.
unfoldable pub in_window : Window → CapturedTransaction → Bool
in_window window t =
    eq_int t.schema_version (pos capture_schema_version)
    && leb_int window.start_ms t.timestamp_millis
    && leb_int t.timestamp_millis window.end_ms
    && (str_eq window.client_ip [] || client_address_matches t.client_address window.client_ip)

-- What is to become of a line that is not blank.
unfoldable pub sort_out : Window → Bytes → Option CapturedTransaction → Verdict
unfolding in_window
sort_out window trimmed none = skipped
sort_out window trimmed (some t) = if in_window window t then wanted trimmed else skipped

unfoldable pub sorted : (Bytes → Option CapturedTransaction) → Window → Bytes → Verdict
unfolding sort_out
sorted decode window line =
    if str_eq (trim_space line) []
    then blank
    else sort_out window (trim_space line) (decode (trim_space line))

judge_record-sort_out :
    (window : Window) (trimmed : Bytes) (o : Option CapturedTransaction)
    → judge_record window trimmed o ≡ sort_out window trimmed o
unfolding judge_record sort_out in_window
judge_record-sort_out window trimmed none = refl
judge_record-sort_out window trimmed (some t) = ground arith

judge-sorted :
    (decode : Bytes → Option CapturedTransaction) (window : Window) (line : Bytes)
    → judge decode window line ≡ sorted decode window line
unfolding judge sorted
judge-sorted decode window line =
    ap (λ v. if str_eq (trim_space line) [] then blank else v)
      (judge_record-sort_out window (trim_space line) (decode (trim_space line)))

-- The records that a list of lines gives to the new file: the trimmed text of each wanted line.
unfoldable pub choose : Verdict → List Bytes → List Bytes
choose blank rest = rest
choose skipped rest = rest
choose (wanted trimmed) rest = trimmed ∷ rest

unfoldable pub chosen : (Bytes → Verdict) → List Bytes → List Bytes
unfolding choose
chosen verdict [] = []
chosen verdict (line ∷ lines) = choose (verdict line) (chosen verdict lines)

-- The lines that are passed over, blank ones aside.
unfoldable pub pass : Verdict → Bytes → List Bytes → List Bytes
pass blank line rest = rest
pass skipped line rest = line ∷ rest
pass (wanted trimmed) line rest = rest

unfoldable pub passed_over : (Bytes → Verdict) → List Bytes → List Bytes
unfolding pass
passed_over verdict [] = []
passed_over verdict (line ∷ lines) = pass (verdict line) line (passed_over verdict lines)

-- A file of records, one to a line.
unfoldable pub file_of : List Bytes → Bytes
file_of [] = []
file_of (trimmed ∷ rest) = (trimmed ++ (b'\n' ∷ [])) ++ file_of rest

-- The counts and the output with those of more lines behind them.
abbrev with_more : Extract → List Bytes → List Bytes → Extract
with_more e kept dropped = record {
  count = e.count + length kept;
  skips = e.skips + length dropped;
  output = e.output ++ file_of kept;
}

Extract_ext : (d e : Extract) → d.count ≡ e.count → d.skips ≡ e.skips → d.output ≡ e.output → d ≡ e
Extract_ext d e p q r = λ i. record { count = p i; skips = q i; output = r i }

with_more-add_line :
    (e : Extract) (v : Verdict) (line : Bytes) (kept dropped : List Bytes)
    → with_more (add_line e v) kept dropped ≡ with_more e (choose v kept) (pass v line dropped)
unfolding add_line choose pass file_of
with_more-add_line e blank line kept dropped = refl
with_more-add_line e skipped line kept dropped = Extract_ext _ _ refl (omega arith) refl
with_more-add_line e (wanted trimmed) line kept dropped =
    Extract_ext _ _ (omega arith) refl
      (append_assoc e.output (trimmed ++ (b'\n' ∷ [])) (file_of kept))

module _ (decode : Bytes → Option CapturedTransaction) (window : Window) where
  extract_lines-chosen :
      (e : Extract) (lines : List Bytes)
      → extract_lines decode window e lines
        ≡ with_more e
            (chosen (sorted decode window) lines)
            (passed_over (sorted decode window) lines)
  unfolding extract_lines chosen passed_over file_of
  extract_lines-chosen e [] =
      Extract_ext _ _ (omega arith) (omega arith) (sym (append-nil e.output))
  extract_lines-chosen e (line ∷ lines) =
      extract_lines-chosen (add_line e (judge decode window line)) lines
      ∙ with_more-add_line e (judge decode window line) line (chosen (sorted decode window) lines)
          (passed_over (sorted decode window) lines)
      ∙ ap
          (λ v.
            with_more e (choose v (chosen (sorted decode window) lines))
              (pass v line (passed_over (sorted decode window) lines)))
          (judge-sorted decode window line)

module _ (env : Env) (source destination : Bytes) (start end : ℤ) (window : Window) where
  abbrev lines_between : Bytes → List Bytes
  lines_between content = lines_of (section (offset_of start) (offset_of end) content)

  abbrev selected : Bytes → List Bytes
  selected content = chosen (sorted env.decode window) (lines_between content)

  -- The new file has the records of the section that are in the window, one to a line and in
  -- their order, and the counts are those of the records and of the lines passed over.
  pub record Selected (w : World) (counts : ℕ × ℕ) (w' : World) : Type 0 where
    pub content : Bytes
    pub found : find_file source w.files ≡ some content
    pub written : find_file destination w'.files ≡ some (file_of (selected content))
    pub count : counts.0 ≡ length (selected content)
    pub skips : counts.1 ≡ length (passed_over (sorted env.decode window) (lines_between content))
    pub whole : concat (lines_between content) ≡ section (offset_of start) (offset_of end) content

  extract_from :
      (content : Bytes) (w : World) (counts : ℕ × ℕ)
      → find_file source w.files ≡ some content
      → (extract_captured_transactions env source destination start end window w).0 ≡ ok counts
      → let all = extract_lines env.decode window no_lines (lines_between content) in
        (counts ≡ (all.count, all.skips))
        × (find_file destination
              (extract_captured_transactions env source destination start end window w).1.files
            ≡ some all.output)
  unfolding extract_captured_transactions open_content content_or_missing finish_file system
      find_file ◌>>=◌
  extract_from content w counts f h = ground (arith, str_eq_refl destination)

  extract_missing :
      (w : World) (counts : ℕ × ℕ)
      → find_file source w.files ≡ none
      → (extract_captured_transactions env source destination start end window w).0 ≢ ok counts
  unfolding extract_captured_transactions open_content content_or_missing system ◌>>=◌
  extract_missing w counts f h = ground arith

  -- An extraction that succeeds has read the source file and written to the destination the
  -- records that the window selects, and no others; it returns how many they are and how many
  -- lines it passed over.
  pub extract-Selected :
      (w : World) (counts : ℕ × ℕ)
      → (extract_captured_transactions env source destination start end window w).0 ≡ ok counts
      → Selected w counts
          (extract_captured_transactions env source destination start end window w).1
  extract-Selected w counts h = elim (Option-cases (find_file source w.files)) [
    | inl missing ↦ absurd (extract_missing w counts missing h)
    | inr (content, found) ↦
        let (same, file) = extract_from content w counts found h in
        let all = extract_lines-chosen env.decode window no_lines (lines_between content) in
        record {
          content = content;
          found = found;
          written = file ∙ ap (λ e. some e.output) all;
          count = ap (λ c. c.0) same ∙ ap (λ e. e.count) all ∙ omega arith;
          skips = ap (λ c. c.1) same ∙ ap (λ e. e.skips) all ∙ omega arith;
          whole = lines_of-concat _;
        }
  ]
