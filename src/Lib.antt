-- ===== src/Lib.antt =====
-- purego-gen: database/sql drivers for SQLite and DuckDB that call the C libraries without cgo.
--
-- The program. Package libload (libload/) finds the shared library of a database and opens it. The
-- packages sqlite3/sqlite3sys and duckdb/duckdbsys bind its C functions; they are generated, with thin
-- wrappers. sqlite3/sqlite3.go and duckdb/duckdb.go are the drivers on top: they open connections from a
-- data source name, prepare, bind and run statements, hand out rows, and free what the C library gave
-- them. database/sql is their caller.
--
-- The files. Prelude and its children: numbers, texts as lists of bytes, decimal printing. Go: values of
-- type any, errors, contexts; Go.Exec: code that mutates state and may fail, panic or not end; Go.Keeps:
-- calls that leave a part of the state as it is; Go.Url: query strings and decimal input; Go.Reflect: kinds
-- of types and values with their kinds.
-- Sqlite3 (sqlite3/sqlite3.go):
--   Codes, the constants of sqlite3sys; Extern, the C library, and what BindText, ResultText and
--   BindBlobBytes of sqlite3sys pass on to it (c_text, a text up to its first zero byte; passed); Errors, errors from result codes;
--   State, the structs SQLiteConn, SQLiteStmt, SQLiteRows; Values, normalizeValue; TimeText, times as
--   text; Bind, bindNamedValues and what it calls; Stmt, the methods of SQLiteStmt; Conn, Connect and
--   the methods of SQLiteConn and SQLiteTx; Rows, those of SQLiteRows; Dsn, parseDSN; Registry,
--   RegisterFunc, RegisterCollation and invokeScalar; Functions, compileScalarFunction with its decoders
--   and encoders; Hooks, SetUpdateHook, SetCommitHook, SetRollbackHook and the callbacks.
-- Duckdb (duckdb/duckdb.go): Extern, State, Values, Types, Numbers, Stmt, Conn, Rows, in the same roles;
--   Vectors, the elements of a chunk in memory.
-- Interrupt: interruptWatcher and cancelState.stop of both drivers, as interleaved steps.
-- Sys (sqlite3/sqlite3sys/*.go, duckdb/duckdbsys/*.go): Memory, strings and bytes at a pointer; Load, Load
--   and the registration of the functions; Symbols, their names; Calls, the wrappers that copy or free;
--   Wrappers, those that pass their arguments on to one C function: each is data (its Go name, the names of
--   its parameters, of the C function and of the arguments), and call_wrapper runs it on what Load has bound.
-- Libload (libload/libload.go, libload/resolve.go): Candidates, Open, DirCandidates, ResolveFromDir.
-- Below a module stand the modules of its proofs; Tests modules run the code on small libraries.
--
-- State and operations. A method is a function of the object that its receiver points to: Env is a
-- connection with everything outside of the program, StmtEnv adds a statement, RowsEnv adds rows; rows
-- share their statement object. A definition has the name of its Go function in snake case, with the
-- receiver where two would be alike (close_conn, close_stmt, close_rows, query_conn); connect is Open,
-- OpenConnector and Connect, prepare_as is PrepareContext and prepareEphemeral. A deferred call is
-- `deferred`, a clean-up on the error path `on_error`. What a method has written before it fails stays
-- written.
--
-- Outside of the model. The C libraries and the contexts of the callers are the record Extern: functions
-- on a state S of which nothing is known but what a theorem assumes by name (KeepsStmts, KeepsDbs,
-- KeepsObjects, KeepsChunks: how the library's handles come and go; KeepsParams: how parameters are
-- bound; YieldsFinitely: a statement has finitely many rows). A context is done when that state says so, and so is what stop answers (fired);
-- which answers the goroutine allows is the subject of Interrupt. The C functions behind sqlite3sys are the
-- record CLibrary, with KeepsBlocks for its memory, the three hook functions are HookLibrary, with Slots.
-- Memory is a function from addresses to bytes. time.Parse, time.Unix, the zones, filepath, purego and the
-- dynamic loader are parameters too. A map range is a function that orders the keys.
--
-- Abstractions. Texts are bytes, and case mapping is that of ASCII. A float is its bit pattern. A
-- driver.Valuer is what its Value method returns, so that every chain of Valuers ends in a `Value`;
-- Values.Valuers has the recursion of normalizeValue on any Valuers, also on one that returns itself,
-- where it has no end. A reflect.Type is what the code asks of it, a reflect.Value that is passed to a
-- function is an Argument, a value with its type. An error of fmt.Errorf keeps its format and its
-- arguments. Each method is one step: locks are left out.
--
-- Fuel. execBound's loop over SQLITE_ROW runs on fuel; more fuel than a statement has rows is enough.
-- bindValue calls itself on the normalized value: two calls are enough. The loop of Next in duckdb.go
-- runs at most two rounds. gostring and ptrToString scan for a zero byte: more fuel than the string has
-- bytes is enough. Decimal printing has the number itself as its fuel.
--
-- Not modelled: the wrappers of sqlite3sys and duckdbsys with literal arguments or out parameters (PrepareV2,
-- ResultError, Status, GetConfigFlag, BindBlob of duckdbsys and their like), the generated declarations of types
-- and function variables, which carry no code, the accessors of generated structs, the generator, which
-- is written in Python, and the runtime of the tests.
pub mod Prelude
pub mod Go
pub mod Sqlite3
pub mod Libload
pub mod Interrupt
pub mod Sys
pub mod Duckdb
