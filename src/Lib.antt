-- ===== src/Lib.antt =====
-- niceyaml prints, compares and searches YAML documents line by line.
-- Its core cuts the tokens of a document into lines, compares two lists of lines, groups the changes
-- into hunks, and maps places in the text back to lines and columns. These modules model that core.
--
-- - Text: what the code uses of Go's strings, which are lists of bytes; runes are read as UTF-8.
-- - Position (position/position.go): positions, ranges, spans, the grouping of indices, prefix sums.
--   Order, Slices, Unique, Grouping, Coverage and Sums prove what they compute.
-- - Tokens (tokens/tokens.go): segments of tokens, and what is read off the segments of lines.
--   Tokens.Documents splits a stream of tokens, and Tokens.Content finds the ranges of their content.
-- - Line (line/line.go, line/meta.go): lines and lists of lines, with overlays and validation.
--   Line.Scan, Line.State, Line.Part and Line.Builder (line/builder.go) model the builder behind
--   NewLines: linesBuilder is the record Builder, which every method takes and returns.
-- - Diff (diff/diff.go) and Diff.Hirschberg (diff/hirschberg.go): operations and the algorithm. The
--   buffers are fields of the record Hirschberg; every slice access may panic. Diff.Script says what a
--   script of operations does, without the algorithm.
-- - Differ (diff.go): Differ compares two lists of lines with Hirschberg's algorithm; DiffResult
--   shows the operations as one list (Unified), as hunks with headers (Hunks), or side by side
--   (Before, After).
-- - Revision (revision.go): revisions linked both ways, in a heap of which a pointer is an address.
--   Revision.History says what list a chain of them stands for.
-- - Finder (find.go): the index of a source and the search in it.
-- - Source (source.go): a source of lines, what it yields to its readers, and its overlays.
-- - Viewport (bubbles/yamlviewport/viewport.go, keymap.go): the state Model and the scrolling. Render
--   has rerender with the search in what is shown, Revisions the operations on the history, the modes
--   and the search, Update the messages and View the text. Scroll and Matches say what scrolling and
--   the selected match come to; Commands makes a command of every call, and its children follow runs.
-- - Nyaml (cmd/nyaml/model.go): the program around the viewport, with its prompt and its picker of
--   themes; its state is in Nyaml.State. Settled and Running say what holds after any run,
--   Preview what the picker keeps, and Picker what its overlay shows.
-- - Prelude: shared names, lists over the native numbers, 64-bit integers with wrap-around, equality as
--   an interface, and Outcome, the result of code that may panic. Examples holds concrete runs.
--
-- The parts call each other as the code does: Line.Builder uses Tokens; Differ uses Line, Diff and
-- Position; Diff, which is generic over a type with equality, is applied to the contents of lines. A
-- Source is a list of lines; the Viewport holds a heap of revisions with sources, compares them with
-- Differ and shows them. Where the viewport shows the source of a revision itself, its field
-- left_owner is the address of the revision, and a write to the source goes to the heap too.
--
-- Integers of positions, spans and the builder are signed and wrap at 64 bits; indices into slices and
-- lengths are natural numbers. A token of go-yaml is a record of the fields that the code reads, a
-- pointer to it an address with the token behind it; of its chain of previous tokens only the types
-- are read. A clone is an equal value. Fuel: recurse in Diff.Hirschberg has one more than the lines of
-- before, since each level halves them; getAlignedRows has one for each operation; the walks of
-- Revision have the size of the heap; Find has one more than the bytes of the source.
--
-- What the viewport uses of its printer and its finder, which are interfaces, of lipgloss, ansi and
-- bubbles, and of slices.SortFunc, which is not stable, are fields of the record Env, which every
-- operation of the viewport takes. View works on a copy of the viewport, but a copy has the same
-- printer, so the view gives its text together with the printer that it leaves.
--
-- The program takes what it uses of its printers, of go-yaml's lexer and of the text of a key as the
-- record Host, and the sorted list of themes as an argument.
--
-- Not modelled: printing, styles, themes and the rest of the command line, which draw; parsing, decoding,
-- encoding, paths, schemas and errors, which call go-yaml and schema libraries; locks and lazy caching;
-- the capacity of slices, but for that of newLinesBuilder, which may be refused, and memory that runs
-- out; identity of the part tokens of segments, and the String methods; of the viewport ScrollPercent
-- and HorizontalScrollPercent, in floating point; of a source its reading from a file and its options
-- of parsing and decoding.
pub mod Prelude
pub mod Text
pub mod Tokens
pub mod Line
pub mod Diff
pub mod Position
pub mod Differ
pub mod Revision
pub mod Finder
pub mod Source
pub mod Viewport
pub mod Nyaml
pub mod Examples
