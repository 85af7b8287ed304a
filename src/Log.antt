-- ===== src/Log.antt =====
-- The log of ApolloUtil.c: `dbg_printf`, with the text of its format and arguments an argument.
use robot_server.Common.{
  ℕ, zero, suc, ◌+◌, ◌-◌, ◌%◌, ◌≤◌, ◌≡◌, refl, ap, Bool, Option, none, some, List, [], ◌∷◌, ◌++◌,
  leb, length, take, replicate, if◌then◌else◌, arith, le→leb, take_all, length-append,
}
use robot_server.Common.Outcome.{Outcome, ok, fault, ◌>>=◌, ◌>>◌, check}
use robot_server.Decimal.{print_nat}
use robot_server.Util.Paths.{codes}
use robot_server.Host.{Tm}

abbrev pub printf_char_max : ℕ
printf_char_max = 256

-- `writeLogFileTimeStamp`
unfoldable pub write_log_file_time_stamp : Tm → List ℕ
write_log_file_time_stamp t =
    codes " ["
    ++ (print_nat (t.tm_year % 100)
        ++ (codes "-"
            ++ (print_nat t.tm_mon
                ++ (codes "-"
                    ++ (print_nat t.tm_mday
                        ++ (codes " "
                            ++ (print_nat t.tm_hour
                                ++ (codes ":"
                                    ++ (print_nat t.tm_min
                                        ++ (codes ":"
                                            ++ (print_nat t.tm_sec ++ codes "] ")))))))))))

-- `pLogFiles`: the contents of the open file, none for the null pointer; and whether it can be created.
pub record Log : Type 0 where
  pub file : Option (List ℕ)
  pub can_create : Bool

unfoldable pub get_logs_handler : Log → Option (List ℕ)
get_logs_handler log = elim log.file [
  | some contents ↦ some contents
  | none ↦ if log.can_create then some [] else none
]

-- `szPrint` behind `vsnprintf`: the time stamp but for its last character, and the part of the text that
-- `vsnprintf` stores; zeros up to its end.
unfoldable pub sz_print : List ℕ → List ℕ → List ℕ
sz_print stamp text =
    let line = take (length stamp - 1) stamp ++ take (printf_char_max - length stamp - 1) text in
    line ++ replicate (printf_char_max - length line) 0

-- `fwrite(szPrint, 1, iret, fp)`, with the length of the text alone.
unfoldable pub write_line : Option (List ℕ) → List ℕ → ℕ → Outcome (List ℕ)
write_line none line iret = fault
write_line (some contents) line iret = do
  check (leb iret printf_char_max)
  ok (contents ++ take iret line)

unfoldable pub dbg_printf : Tm → List ℕ → Log → Outcome Log
dbg_printf t text log = do
  contents ←
      write_line (get_logs_handler log) (sz_print (write_log_file_time_stamp t) text) (length text)
  ok (record log { file = some contents })

take_prefix : (n : ℕ) (line zeros : List ℕ) → n ≤ length line → take n (line ++ zeros) ≡ take n line
take_prefix zero line zeros h = refl
take_prefix (suc n) [] zeros h = absurd (omega arith)
take_prefix (suc n) (c ∷ line) zeros h = ap (λ x. c ∷ x) (take_prefix n line zeros (omega arith))

-- A short line loses its end: as many bytes are written as the text has, from the time stamp on. The
-- file is open, and stamp and text fit the array.
dbg_printf_lem :
    (t : Tm) (text contents : List ℕ) (log : Log)
    → get_logs_handler log ≡ some contents
    → length (write_log_file_time_stamp t) + length text ≤ 255
    → dbg_printf t text log
      ≡ ok (record log {
        file = some (
            contents
            ++ take (length text) (
                take (length (write_log_file_time_stamp t) - 1) (write_log_file_time_stamp t)
                ++ text));
      })
unfolding dbg_printf write_line sz_print
dbg_printf_lem t text contents log opened fits =
    let stamp = write_log_file_time_stamp t in
    let front = take (length stamp - 1) stamp in
    let line = front ++ text in
    let kept : take (256 - length stamp - 1) text ≡ text =
      take_all (256 - length stamp - 1) text (omega arith) in
    rw
      (
        opened,
        kept,
        le→leb (length text) 256 (omega arith),
        take_prefix (length text) line (replicate (256 - length line) 0)
            (omega (arith, length-append front text)),
      )
      refl
