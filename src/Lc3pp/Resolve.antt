-- ===== src/Lc3pp/Resolve.antt =====
-- resolve_externs of lcc-1.3/lc3pp/lc3pp.c: the file with main, with what it takes from other files.
pub mod Library
use lc3_script_tools.Base.{
  ℕ, zero, suc, ◌+◌, Bool, true, false, ◌||◌, Option, none, some, List, [], ◌∷◌, ◌++◌, ◌==◌,
  if◌then◌else◌, length,
}
use lc3_script_tools.Sim.Text.{Text, text, same_text}
use lc3_script_tools.Lc3pp.Lines.{
  Res, ok, stop, forever, undefined, out_of_fuel, exited, ◌>>=◌, starts_with, line_of,
}
use lc3_script_tools.Lc3pp.Split.{is_end}
use lc3_script_tools.Lc3pp.Link.{
  LinkVariable, LinkList, is_global_line, is_extern_line, find_name, has_name,
}
use lc3_script_tools.Lc3pp.Import.{
  UsedVariable, flag_word, function_body, fill_lines, search, read_line,
}

-- The state of the links and of the imports: `messages` is what is printed to stdout.
record Linking : Type 0 where
  pub e : List LinkVariable
  pub out : Text
  pub messages : Text

-- An import from a file of lines `all`: `buf` is the line that was read last.
record Source : Type 0 where
  pub buf : Text
  pub rest : List Text

-- The name of an entry of link.g: `none` is past them.
unfoldable nth_name : List LinkVariable → ℕ → Option Text
nth_name [] n = none
nth_name (v ∷ vs) zero = some v.name
nth_name (v ∷ vs) (suc n) = nth_name vs n

-- Where the loop over a file stands: `word` is the line that it looks for, `name` that of entry `i`.
record Position : Type 0 where
  pub word : Text
  pub name : Option Text
  pub src : Source
  pub links : Linking

module _ (num mfile : ℕ) (g : List LinkVariable) where
  -- The used variables that are externs of the file become labels, and externs of the main file. The
  -- test for one that is there already looks for the file 0.
  unfoldable mark_externs :
      List UsedVariable → List LinkVariable → List UsedVariable × List LinkVariable
  mark_externs [] e = ([], e)
  mark_externs (u ∷ us) e =
      let there = has_name u.name 0 e in
      let e' = if there then e else e ++ record { name = u.name; argn = mfile } ∷ [] in
      let kept = mark_externs us e in
      let marked = mark_externs us e' in
      if has_name u.name num e
      then (record u { label = true } ∷ marked.0, marked.1)
      else (u ∷ kept.0, kept.1)

  -- The variable that begins with `word`: it is looked for twice, from where the file stands and from
  -- its start.
  unfoldable import_variable : List Text → Text → Source → Linking → Res (Source × Linking)
  unfolding search fill_lines
  import_variable all word src l =
      let found = λ (buf : Text) (rest : List Text).
        fill_lines rest (record { rest = rest; out = l.out ++ line_of buf; used = [] }) >>= λ p.
        ok ((record { buf = p.0; rest = p.1.rest }, record l { out = p.1.out })) in
      let first = read_line all in
      search word src.buf src.rest >>= λ s.
      if s.0
      then found s.1 s.2
      else (search word first.0 first.1 >>= λ s.
          if s.0
          then found s.1 s.2
          else ok (
            record { buf = first.0; rest = first.1 },
            record l { messages = l.messages ++ text "symbol " ++ word ++ text " not found\n" },
          ))

  -- The used variables that are no labels, and the word that is left of the last of them.
  unfoldable import_variables :
      List Text → List UsedVariable → Text → Source → Linking → Res (Text × Source × Linking)
  unfolding import_variable
  import_variables all [] word src l = ok (word, src, l)
  import_variables all (u ∷ us) word src l =
      let rest = import_variables all us word src l in
      let name = flag_word ++ u.name in
      elim u.label [
        | true ↦ rest
        | false ↦ import_variable all name src l >>= λ p. import_variables all us name p.0 p.1
      ]

  -- A function: its lines after the first, and its variables. `i` is then the number of used variables.
  unfoldable import_function : List Text → Option Text → Source → Linking → Res Position
  unfolding function_body mark_externs import_variables nth_name
  import_function all none src l = stop undefined
  import_function all (some name) src l =
      function_body src.rest
        (record { rest = []; out = l.out; used = record { name = name; label = true } ∷ [] })
      >>= λ i.
          let marked = mark_externs i.used l.e in
          let next = read_line i.rest in
          import_variables all marked.0 flag_word (record { buf = next.0; rest = next.1 })
            (record l { e = marked.1; out = i.out })
          >>= λ p.
              ok
                (record { word = p.0; name = nth_name g (length marked.0); src = p.1; links = p.2 })

  -- The line after `.global` is a variable or the first of a function.
  unfoldable import_global : List Text → Position → Res Position
  unfolding import_function fill_lines
  import_global all p =
      let first = read_line p.src.rest in
      let l = record p.links { out = p.links.out ++ line_of first.0 } in
      if starts_with first.0 (text "LC3_GFLAG")
      then (fill_lines first.1 (record { rest = []; out = l.out; used = [] }) >>= λ f.
          ok (record p {
            src = record { buf = f.0; rest = f.1.rest };
            links = record l { out = f.1.out };
          }))
      else import_function all p.name (record { buf = first.0; rest = first.1 }) l

  -- The loop over the file, on fuel: a variable that is looked for may take it back to the start.
  unfoldable import_loop : ℕ → List Text → Position → Res Linking
  unfolding import_global
  import_loop zero all p = stop out_of_fuel
  import_loop (suc fuel) all p = elim p.src.rest [
    | [] ↦ stop forever
    | line ∷ lines ↦
        let here = record p { src = record { buf = line; rest = lines } } in
        (if same_text p.word line then import_global all here else ok here) >>= λ q.
        elim (is_end q.src.buf) [ true ↦ ok q.links | false ↦ import_loop fuel all q ]
  ]

abbrev nth_lines : List (List Text) → ℕ → List Text
nth_lines [] n = []
nth_lines (f ∷ fs) zero = f
nth_lines (f ∷ fs) (suc n) = nth_lines fs n

unfoldable nth_extern : List LinkVariable → ℕ → Option LinkVariable
nth_extern [] n = none
nth_extern (v ∷ vs) zero = some v
nth_extern (v ∷ vs) (suc n) = nth_extern vs n

module _ (library : Text → Option Text) (files : List (List Text)) (g : List LinkVariable)
    (mfile : ℕ) where
  -- A name without a file is the file of the library with that name.
  unfoldable from_library : Text → Linking → Res Linking
  from_library name l = elim (library (name ++ text ".asm")) [
    | none ↦ stop (exited 255)
    | some bytes ↦ ok (record l { out = l.out ++ bytes })
  ]

  unfoldable resolve_name : ℕ → Text → Linking → Res Linking
  unfolding import_loop from_library find_name
  resolve_name fuel name l = elim (find_name name g) [
    | none ↦ from_library name l
    | some v ↦
        if v.argn == mfile
        then ok l
        else import_loop v.argn mfile g fuel (nth_lines files v.argn) (record {
          word = text ".global " ++ name;
          name = some name;
          src = record { buf = []; rest = nth_lines files v.argn };
          links = l;
        })
  ]

  -- The loop over link.e, which an import makes longer, on fuel.
  unfoldable resolve_loop : ℕ → ℕ → Linking → Res Linking
  unfolding resolve_name nth_extern
  resolve_loop zero k l = stop out_of_fuel
  resolve_loop (suc fuel) k l = elim (nth_extern l.e k) [
    | none ↦ ok l
    | some v ↦ (if v.argn == mfile then resolve_name fuel v.name l else ok l) >>= λ l'.
        resolve_loop fuel (k + 1) l'
  ]

-- The main file up to its first `.extern`: true is `.END` before one.
unfoldable copy_head : List Text → Text → Res (Bool × Text × List Text)
copy_head [] out = stop forever
copy_head (line ∷ lines) out =
    if is_extern_line line
    then ok (false, out, lines)
    else if is_end line
    then ok (true, out ++ line_of line, lines)
    else copy_head lines (if is_global_line line then out else out ++ line_of line)

-- The rest of it.
unfoldable copy_rest : List Text → Text → Res Text
copy_rest [] out = stop forever
copy_rest (line ∷ lines) out =
    if is_end line
    then ok (out ++ line_of line)
    else copy_rest lines
        (if is_global_line line || is_extern_line line then out else out ++ line_of line)

-- The complete file, and what is printed. Without a main link.g is read past its end.
unfoldable pub resolve_externs :
    (Text → Option Text) → ℕ → List (List Text) → LinkList → Res (Text × Text)
unfolding find_name copy_head resolve_loop copy_rest
resolve_externs library fuel files link = elim (find_name (text "main") link.g) [
  | none ↦ stop undefined
  | some v ↦ copy_head (nth_lines files v.argn) [] >>= λ h.
      if h.0
      then ok (h.1, [])
      else (resolve_loop library files link.g v.argn fuel 0
            (record { e = link.e; out = h.1; messages = [] })
          >>= λ l. copy_rest h.2 l.out >>= λ out. ok (out, l.messages))
]
