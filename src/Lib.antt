-- ===== src/Lib.antt =====
-- The core of the minc+ compiler: the sources and their tokens, constant arithmetic, the conversions
-- and the definite assignment of the type checker, and the conditionals of the preprocessor.
--
-- How the parts interact. The source manager brings a text up to what the later stages rely on: small
-- enough for 32-bit offsets, UTF-8, no NUL byte. The lexer (`lex::TokenStream`) cuts it into tokens
-- that tile it, and flags what the literal readers would refuse, so that a problem in a literal shows
-- before its value is read. The preprocessor reads directives and keeps the open conditionals on a
-- stack (`pp::ConditionalStack`); the condition of an `#if` is macro-expanded tokens that a
-- recursive descent evaluates (`pp::evaluateConstExpr`). Its arithmetic is that of
-- `support::ConstInt`, the constants that the type checker folds too, and its operands are read by
-- the literal readers that the type checker and the lowering use as well. The type checker asks
-- `sema/convert` for the common type of two operands, for the implicit conversions and for the
-- casts, over the types that its `TypeStore` interns, and its pass over each body
-- (`checkDefiniteAssignment`) reports the reads of what was not assigned.
--
-- Support/ConstInt.antt models include/support/consteval/const_int.h and
--   src/support/consteval/const_int.cc: a constant is its 64 bits, a number below 2 ^ 64, and its
--   signedness; every operation writes its wrap-around out. Its child modules compare it with the
--   exact integers: Arithmetic, Division, Shift and Order.
-- Support/Span.antt models include/support/span/span.h and src/support/span/span_ops.cc.
-- Support/LineTable.antt models include/support/line/line_table.h and
--   src/support/line/line_table.cc: a text is its bytes, the table is the list of the starts, and the
--   binary search has fuel for the number of lines.
-- Support/Constraint.antt models include/support/constraint/constraint.h and
--   src/support/constraint/constraint.cc: the classes of type parameters, the operations that each
--   grants as a 64-bit set, and the constants of integer types of up to 128 bits in two words.
-- Support/Suffix.antt and Support/Literal.antt model src/support/consteval/suffix.cc and
--   literal.cc with their headers: a text is its bytes, an index into it is the list of the bytes
--   from there on, and a message is an enumerator. Number has numericPartOfFloat, Escape the
--   elements of a body, Text the character and string literals, whose Elements and Bytes say what
--   the readers make of the elements of a body.
-- Support/Source.antt models src/support/source/source_manager.cc and source_file.cc with their
--   headers. What reading a file yields is an argument. Trusted says what a text is that got in, and
--   Manager follows a sequence of requests.
-- Lex/TokenKind.antt and Lex/Token.antt model include/lex/token_kind.h, include/lex/token.h,
--   src/lex/token_kind.cc and src/lex/byte_class.h; the flags of a token are the list of those
--   set. Lex/Number, Lex/Escape and Lex/Text model src/lex/literal_scanner.cc, Lex/Lexer
--   src/lex/lexer.cc, Lex/HeaderName src/lex/header_name.cc and Lex/Stream
--   src/lex/token_stream.cc. A scanner takes the bytes from an offset on and gives what is behind
--   its token; the Progress modules say that this is shorter. Lex/Escape/Agree and Accepts compare
--   the scanner of escapes with the reader of Support/Literal/Escape.antt.
-- Support/Interner.antt models src/support/intern/interner.cc and its header.
-- Support/Utf8.antt models src/support/utf8 and the encoder of literal.cc. Its masks and shifts are
--   the source's; Fields turns them into divisions.
-- Sema/Types.antt models include/sema/type.h and the predicates of src/sema/type_store.cc. An
--   interned id is the type itself, as a tree, and the equality of ids is `same`, which
--   Sema/Types/Equality.antt compares with equality. Sema/Classes.antt has satisfies and hasConstant.
-- Sema/Store.antt models the table of src/sema/type_store.cc by which ids come to stand for types: the
--   types in a list, the index as the list of its hashes and ids, and each row of members in the type
--   that owns it. Table, Intern, Grow and Laws are about internSequence; Build has the constructor
--   and the operations that make types; Denote says which tree of Sema/Types an id stands for,
--   Refine, Operations and Substitute compare the store with those trees, and Again has what an
--   operation does that makes a type that is there already.
-- Sema/Layout.antt models layoutOf, arraySize, tupleSize and memberOffset of the same file, once for
--   the layouts of children that the store looks up and once as a recursion over a type.
-- Sema/Convert.antt and Sema/Cast.antt model src/sema/convert.cc and include/sema/convert.h. The
--   relation of Sema/Convert/Relation.antt states the implicit conversions as rules. A refused cast
--   holds an enumerator in place of its sentence, and the losses of a cast are the bits of a number.
--   The width of a pointer, which the target's table gives, is an argument.
-- Sema/Flow.antt models src/sema/check_flow.cc: the state is the record of the checker's four members,
--   a node is given by its parts, and a read that is reported is the number of its definition. Paths
--   says which paths an expression or a body can take and what they read, and Growth, Sound, Breaks
--   and Statements follow the state along them up to Safe.
-- Pp/Conditionals.antt models include/pp/conditionals.h and src/pp/conditionals.cc.
-- Pp/ConstExpr.antt and its child modules Levels and Grammar model src/pp/const_expr.cc: the tokens
--   from `index_` on are a list in the state, and each parse function takes the state and gives its
--   value and the new state. The ten loops of the binary levels are one loop over a record of what
--   differs between them. Effects and Run follow the state through each function, Result states what
--   the evaluation reports, and Fuel and Enough show that the fuel is enough.
-- Prelude.antt has the shared names, the Boolean tests, the integers over the native numbers, and
--   lemmas on bits and powers of two. Tests.antt has runs at fixed inputs.
--
-- Bounds and fuel. The loop of a binary level has fuel for the tokens that are left, since every
-- round takes one. The recursion between expressions and unary operands has fuel of two calls for
-- each token and two more: a token is taken before every call that nests deeper, except that an
-- expression begins with an operand. The nesting limit of the source, 1024, is an argument, and so
-- is the limit of open conditionals, 256. The loops over the body of a literal have fuel for its
-- bytes, since every element takes one. The loop of the lexer has fuel for the bytes and one more, as
-- every token but the last takes a byte. A loop of the literal scanner that an escape puts ahead
-- passes over that many bytes instead of counting fuel. Token lengths, token ends and the indexes of
-- a stream are modulo 2 ^ 32. Substitution has fuel for the depth of a type.
--
-- Not modelled: the text of messages; of the type store, what it keeps only to display a type
-- parameter and its lookups by name; macro expansion, parsing, name resolution and the checker's
-- walk of the tree apart from definite assignment; reading files; the driver and the code
-- generation, which call the system and LLVM.
pub mod Prelude
pub mod Support
pub mod Lex
pub mod Sema
pub mod Pp
pub mod Tests
