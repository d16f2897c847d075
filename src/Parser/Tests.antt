-- ===== src/Parser/Tests.antt =====
-- Runs of the parser, and the theorem at a concrete command.
use gen_os.Common.{◌≡◌, refl, true, [], ◌∷◌}
use gen_os.Parser.Word
use gen_os.Parser.{write, unknown, empty, parse, parse_verb, parse_argument}
use gen_os.Parser.Print.{print, parse-print}

-- `append /a b c`.
parse-print_example :
    parse (print (write (47 ∷ 97 ∷ []) (98 ∷ 32 ∷ 99 ∷ []) true))
    ≡ write (47 ∷ 97 ∷ []) (98 ∷ 32 ∷ 99 ∷ []) true
parse-print_example = parse-print (write (47 ∷ 97 ∷ []) (98 ∷ 32 ∷ 99 ∷ []) true) (refl, refl)

-- A verb that wants an argument is unknown without one, and a lone space is no empty line.
without_argument : (parse Word.echo ≡ unknown) × (parse (32 ∷ []) ≡ unknown) × (parse [] ≡ empty)
unfolding parse parse_verb parse_argument
without_argument = (refl, refl, refl)
