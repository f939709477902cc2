-- ===== src/Examples/Captures.antt =====
-- The theorems on captured bodies and on the extraction of traffic, at small inputs.
use http_capture.Prelude.{
  ◌||◌, not, str_eq, some, pos, negsuc, codes, List, [], ◌∷◌, ◌++◌, none, ◌≡◌, refl, true, false,
  length, take,
}
use http_capture.Capture.{
  Encoding, Event, read, close, more, eof, new_capturing, run, payload_of, step, keep_bytes,
  end_read, complete, close_source, set_captured_payload_data,
}
use http_capture.Capture.Prefix.{received, run-prefix, not_truncated-whole}
use http_capture.Export.{incomplete_captured_payload, payload_of-incomplete}
use http_capture.Lines.{read_json_line, whole_line, line_of, read_json_line-whole_line}
use http_capture.Capture.Once.{run-completed}

abbrev plain : Encoding
plain = record { valid_utf8 = λ s. true; base64 = λ s. s }

abbrev body : List Event
body = read (codes "ab") more ∷ read (codes "cd") more ∷ read [] eof ∷ close none ∷ []

run-prefix_example :
    let r = run plain body (new_capturing (negsuc 0) 3 true) in
    (r.buffer ≡ take 3 (received body)) × (r.total_read ≡ length (received body))
run-prefix_example = run-prefix plain 3 (negsuc 0) true body

complete_runs :
    (payload_of plain (run plain body (new_capturing (negsuc 0) 9 true))).truncated ≡ false
unfolding run payload_of new_capturing step keep_bytes end_read close_source complete
    set_captured_payload_data
complete_runs = refl

not_truncated-whole_example :
    let p = payload_of plain (run plain body (new_capturing (negsuc 0) 9 true)) in
    (p.captured_size ≡ length (received body))
    × (plain.valid_utf8 (received body) ≡ true → p.content ≡ received body)
not_truncated-whole_example =
    not_truncated-whole plain 9 (negsuc 0) true body complete_runs (λ n e. absurd (cc e))

run-completed_example :
    let r = new_capturing (pos 4) 3 true in
    ((run plain (read (codes "ab") more ∷ []) r).completed ≡ [])
    × ((run plain
          ((read (codes "ab") more ∷ []) ++ (read (codes "cd") eof ∷ close none ∷ []))
          r).completed
        ≡ payload_of plain
            (run plain ((read (codes "ab") more ∷ []) ++ (read (codes "cd") eof ∷ [])) r)
          ∷ [])
run-completed_example =
    run-completed plain (pos 4) 3 (read (codes "ab") more ∷ []) (close none ∷ [])
      (read (codes "cd") eof) (refl, tt) refl

payload_of-incomplete_example :
    incomplete_captured_payload
      (λ s. some s)
      (payload_of plain (run plain body (new_capturing (negsuc 0) 9 true)))
    ≡ ((payload_of plain (run plain body (new_capturing (negsuc 0) 9 true))).truncated
        || not (str_eq (run plain body (new_capturing (negsuc 0) 9 true)).read_error []))
payload_of-incomplete_example =
    payload_of-incomplete plain (λ s. some s) (run plain body (new_capturing (negsuc 0) 9 true))
      ((λ s. refl), refl)

read_json_line-whole_line_example :
    read_json_line 5 (codes "ab" ∷ codes "cd" ∷ codes "ef" ∷ [])
    ≡ whole_line 5 (line_of (codes "ab" ∷ codes "cd" ∷ codes "ef" ∷ []))
read_json_line-whole_line_example =
    read_json_line-whole_line 5 (codes "ab" ∷ codes "cd" ∷ codes "ef" ∷ [])
